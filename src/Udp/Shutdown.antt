-- ===== src/Udp/Shutdown.antt =====
-- What `shutdown` of a UDPCom closes.
use socle.Prelude.{
  ℕ, suc, ◌-◌, ◌≡◌, true, false, not, ◌&&◌, Option, none, some, [], ◌∷◌, ◌++◌, arith, ltb, ◌==◌,
  if◌then◌else◌, Key, nat_key, same, find_key, store, find_key-store, find_key-erase_key,
}
use socle.Epoll.Sets.{find, find-erase}
use socle.Udp.{real, virtual, Datagram}
use socle.Udp.Connections.{
  connect, shutdown, UdpCom, Shared, Attempt, kill_socket, kill_and_deref_from_connnect,
  remove_datagram_entry, drop_virtual, close_fd, try_new,
}

-- An address with which all went well.
abbrev pub works : ℕ → Attempt
works s = record { created = some s; prepared = true; connected = true }

module _ {ℓ} {K : Type ℓ} ⦃key : Key K⦄ where
  -- Two objects that connect without a source address of their own: the key of both is the empty
  -- text, so that the shutdown of the first closes the socket of the second, and not its own.
  pub plain_shutdown_closes_other :
      (empty_key : K) (gen_key : Option K) (a b : ℕ) (c₁ c₂ : UdpCom K) (w : Shared K)
      → c₁.embryonics_.id ≡ 0
      → let (s₁, c₁', w₁) = connect none empty_key (works (suc a) ∷ []) c₁ w in
        let (s₂, c₂', w₂) = connect none empty_key (works (suc b) ∷ []) c₂ w₁ in
        let w₃ = shutdown (real (suc a)) gen_key c₁' w₂ in
        (s₁ ≡ some (suc a)) × (s₂ ≡ some (suc b)) × (w₃.closed ≡ w.closed ++ suc b ∷ [])
  unfolding connect try_new shutdown close_fd kill_and_deref_from_connnect kill_socket
  plain_shutdown_closes_other empty_key gen_key a b c₁ c₂ w none_waits =
      let m = store empty_key (suc a, 1) w.cache in
      ground (arith, none_waits, find_key-store empty_key empty_key (suc b, 1) m)

  -- A cached socket that is counted more than once: the shutdown of one of its objects counts down
  -- and keeps it in the cache, and closes it all the same.
  pub shared_shutdown_closes :
      (k : K) (gen_key : Option K) (s n : ℕ) (c : UdpCom K) (w : Shared K)
      → c.my_key ≡ some k
      → c.embryonics_.id ≡ 0
      → find_key k w.cache ≡ some (suc s, suc (suc n))
      → let w' = shutdown (real (suc s)) gen_key c w in
        (w'.closed ≡ w.closed ++ suc s ∷ []) × (find_key k w'.cache ≡ some (suc s, suc n))
  unfolding shutdown close_fd kill_and_deref_from_connnect kill_socket
  shared_shutdown_closes k gen_key s n c w mine none_waits cached_socket =
      ground (
        arith,
        mine,
        none_waits,
        cached_socket,
        find_key-store k k (suc s, suc (suc n) - 1) w.cache,
      )

  -- `shutdown` of a virtual socket whose entry is not marked for reuse, of an object that takes in no
  -- datagrams of another: the socket is not in the set of readable ones any more and has no entry,
  -- and the socket that was connected for it, if there is one above 0, is closed; the other virtual
  -- sockets stay in the set or out of it, and their entries stay.
  pub shutdown_virtual :
      (s i : ℕ) (d : Datagram) (gen_key : Option K) (c : UdpCom K) (w : Shared K)
      → c.embryonics_.id ≡ 0
      → find_key s w.pool.datagrams_received ≡ some d
      → d.reuse ≡ false
      → let w' = shutdown (virtual s) gen_key c w in
        (find i w'.pool.in_virt_set ≡ (not (i == s) && find i w.pool.in_virt_set))
        × (find_key i w'.pool.datagrams_received
            ≡ (if same i s then none else find_key i w.pool.datagrams_received))
        × (w'.closed ≡ elim d.socket_left [
          | none ↦ w.closed
          | some sock ↦ if ltb 0 sock then w.closed ++ sock ∷ [] else w.closed
        ])
  unfolding shutdown close_fd drop_virtual remove_datagram_entry kill_socket
  shutdown_virtual s i d gen_key c w none_waits known unmarked = ground (
    arith,
    known,
    unmarked,
    none_waits,
    find-erase i s w.pool.in_virt_set,
    find_key-erase_key i s w.pool.datagrams_received,
  )
