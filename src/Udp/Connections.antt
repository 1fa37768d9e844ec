-- ===== src/Udp/Connections.antt =====
-- udpcom.hpp and udpcom.cpp: connect and shutdown of UDPCom, with the cache of the sockets that are
-- connected from one address. The system's calls are arguments; a socket that is closed stands in
-- `closed`.
use socle.Prelude.{
  ℕ, zero, suc, ◌+◌, ◌-◌, Bool, true, false, not, ◌&&◌, ◌||◌, Option, none, some, List, [], ◌∷◌,
  ◌++◌, ltb, leb, ◌==◌, if◌then◌else◌, Key, nat_key, find_key, store, erase_key,
}
use socle.Epoll.Sets.{erase}
use socle.Udp.{Socket, real, virtual, DatagramCom, Embryon}

pub record UdpCom {ℓ} (K : Type ℓ) : Type ℓ where
  pub my_key : Option K
  pub embryonics_ : Embryon

-- What all objects share. The cache has a socket and a counter for each key.
pub record Shared {ℓ} (K : Type ℓ) : Type ℓ where
  pub pool : DatagramCom
  pub cache : List (K × (ℕ × ℕ))
  pub closed : List ℕ

-- What comes of an address that `connect` tries: the socket, if one was made, whether it could be
-- made transparent and bound, and whether it was connected.
pub record Attempt : Type 0 where
  pub created : Option ℕ
  pub prepared : Bool
  pub connected : Bool

module _ {ℓ} {K : Type ℓ} ⦃key : Key K⦄ where
  unfoldable pub kill_socket : ℕ → Shared K → Shared K
  kill_socket s w = record w { closed = w.closed ++ s ∷ [] }

  -- the number of removed entries, and the state
  unfoldable pub kill_and_deref_from_connnect : K → Shared K → ℕ × Shared K
  kill_and_deref_from_connnect k w = elim (find_key k w.cache) [
    | none ↦ (0, w)
    | some (sock, counter) ↦
        if leb counter 1
        then (let w' = kill_socket sock w in (1, record w' { cache = erase_key k w'.cache }))
        else (0, record w { cache = store k (sock, counter - 1) w.cache })
  ]

  unfoldable pub remove_datagram_entry : ℕ → Shared K → Shared K
  remove_datagram_entry s w = elim (find_key s w.pool.datagrams_received) [
    | none ↦ w
    | some d ↦
        let w' : Shared K = if d.reuse then w else elim d.socket_left [
          | none ↦ w
          | some sock ↦ if ltb 0 sock then kill_socket sock w else w
        ] in
        record w' {
          pool = record w'.pool { datagrams_received = erase_key s w'.pool.datagrams_received };
        }
  ]

  -- A virtual socket leaves the set of readable ones, and its datagrams are removed.
  unfoldable pub drop_virtual : ℕ → Shared K → Shared K
  drop_virtual s w =
      remove_datagram_entry s
        (record w { pool = record w.pool { in_virt_set = erase s w.pool.in_virt_set } })

  abbrev pub first_some : Option K → Option K → Option K
  first_some none o = o
  first_some (some k) o = some k

  -- `gen_key` is the key that is generated where the object has none.
  unfoldable pub close_fd : Socket → Option K → UdpCom K → Shared K → Shared K
  close_fd (virtual s) gen_key c w = drop_virtual s w
  close_fd (real zero) gen_key c w = drop_virtual 0 w
  close_fd (real (suc s)) gen_key c w =
      let (n, w') : ℕ × Shared K = elim (first_some c.my_key gen_key) [
        | none ↦ (0, w)
        | some k ↦ kill_and_deref_from_connnect k w
      ] in
      if n == 0 then kill_socket (suc s) w' else w'

  unfoldable pub shutdown : Socket → Option K → UdpCom K → Shared K → Shared K
  shutdown fd gen_key c w =
      let w' = close_fd fd gen_key c w in
      if c.embryonics_.id == 0 then w' else drop_virtual c.embryonics_.id w'

  -- The rest of an attempt with a new socket: it is cached under the key.
  abbrev pub cached : K → ℕ → UdpCom K → Shared K → Option ℕ × UdpCom K × Shared K
  cached k s c w =
      (some s, record c { my_key = some k }, record w { cache = store k (s, 1) w.cache })

  -- An attempt without a cached socket, then the others. `nonlocal` says that the source address is
  -- not one of this host.
  unfoldable pub try_new :
      (UdpCom K → Shared K → Option ℕ × UdpCom K × Shared K)
      → K
      → Bool
      → Attempt
      → UdpCom K
      → Shared K
      → Option ℕ × UdpCom K × Shared K
  try_new others k nonlocal a c w = elim a.created [
    | none ↦ others c w
    | some s ↦
        if nonlocal && not a.prepared || not a.connected
        then others c (record w { closed = w.closed ++ s ∷ [] })
        else cached k s c w
  ]

  -- `connect`: the key of a nonlocal source address, or none, and the key of the empty text
  unfoldable pub connect :
      Option K → K → List Attempt → UdpCom K → Shared K → Option ℕ × UdpCom K × Shared K
  connect nonlocal empty_key [] c w = (none, c, w)
  connect none empty_key (a ∷ rest) c w =
      try_new (connect none empty_key rest) empty_key false a c w
  connect (some k) empty_key (a ∷ rest) c w = elim (find_key k w.cache) [
    | none ↦ try_new (connect (some k) empty_key rest) k true a c w
    | some (s, counter) ↦ (
      some s,
      record c { my_key = some k },
      record w { cache = store k (s, counter + 1) w.cache },
    )
  ]
