-- ===== src/Udp/Tests.antt =====
-- The theorems on a virtual socket with two datagrams.
use native.Mathlib.Decide.{ℕ_discrete}
use socle.Prelude.{
  ℕ, ◌≤◌, ◌<◌, ◌≡◌, refl, ◌⊎◌, true, false, not, ◌&&◌, Option, none, some, List, [], ◌∷◌, ◌++◌,
  arith, ltb, ◌==◌, if◌then◌else◌, length, nat_key, same, find_key,
}
use socle.Epoll.Sets.{find}
use socle.Udp.{
  real, virtual, Datagram, DatagramCom, bytes_in, queue_bytes, enqueue, Taken, take_first,
  read_from_pool,
}
use socle.Udp.Connections.{connect, shutdown, UdpCom, Shared}
use socle.Udp.Queue.{joined, all_used, enqueue_in_order, read_in_order, enqueue_overtakes}
use socle.Udp.Shutdown.{
  works, plain_shutdown_closes_other, shared_shutdown_closes, shutdown_virtual,
}

abbrev waiting : Datagram
waiting = record {
  socket_left = some 9;
  reuse = false;
  rx_queue = (1 ∷ 2 ∷ []) ∷ (3 ∷ []) ∷ [] ∷ [] ∷ [] ∷ [];
}

abbrev pool : DatagramCom
pool = record { datagrams_received = (77, waiting) ∷ []; in_virt_set = 77 ∷ [] }

abbrev no_recv : ℕ → ℕ → Option (List ℕ)
no_recv s n = none

abbrev com_a : UdpCom ℕ
com_a = record { my_key = some 5; embryonics_ = record { id = 0; pool_depleted = false } }

abbrev shared : Shared ℕ
shared = record { pool = pool; cache = (5, (8, 2)) ∷ []; closed = [] }

enqueue_in_order_example :
    let (n, d') = enqueue (4 ∷ []) waiting in
    ((all_used waiting.rx_queue ≡ false)
      × (n ≡ 1)
      × (joined d'.rx_queue ≡ joined waiting.rx_queue ++ 4 ∷ []))
    ⊎ ((all_used waiting.rx_queue ≡ true) × (n ≡ 0) × (d'.rx_queue ≡ waiting.rx_queue))
unfolding bytes_in
enqueue_in_order_example = enqueue_in_order (4 ∷ []) waiting refl

read_in_order_example :
    (bs : List ℕ) × (d' : Datagram) × (c' : DatagramCom) × (read_from_pool no_recv 77 2 false pool
      ≡ some (some bs, c'))
    × (find_key 77 c'.datagrams_received ≡ some d')
    × (joined waiting.rx_queue ≡ bs ++ joined d'.rx_queue)
    × (0 < length bs)
    × (length bs ≤ 2)
    × (find 77 c'.in_virt_set ≡ ltb 0 (queue_bytes d'))
unfolding bytes_in ℕ_discrete
read_in_order_example =
    read_in_order no_recv 77 2 waiting pool refl (omega arith) (omega arith) (omega arith)
      (omega arith)

enqueue_overtakes_example :
    (t : Taken) × (take_first 8 false waiting.rx_queue ≡ some t)
    × (t.taken_bytes ≡ 1 ∷ 2 ∷ [])
    × (let (m, d') = enqueue (4 ∷ []) (record waiting { rx_queue = t.left_queue }) in
        (m ≡ 1) × (joined d'.rx_queue ≡ (4 ∷ []) ++ ((3 ∷ []) ++ joined ([] ∷ [] ∷ [] ∷ []))))
enqueue_overtakes_example =
    enqueue_overtakes 8 1 3 (2 ∷ []) [] (4 ∷ []) ([] ∷ [] ∷ [] ∷ []) waiting refl (omega arith)
      (omega arith)

plain_shutdown_closes_other_example :
    let (s₁, c₁, w₁) = connect none 0 (works 6 ∷ []) com_a shared in
    let (s₂, c₂, w₂) = connect none 0 (works 7 ∷ []) com_a w₁ in
    let w₃ = shutdown (real 6) none c₁ w₂ in
    (s₁ ≡ some 6) × (s₂ ≡ some 7) × (w₃.closed ≡ shared.closed ++ 7 ∷ [])
plain_shutdown_closes_other_example = plain_shutdown_closes_other 0 none 5 6 com_a com_a shared refl

shared_shutdown_closes_example :
    let w' = shutdown (real 8) none com_a shared in
    (w'.closed ≡ shared.closed ++ 8 ∷ []) × (find_key 5 w'.cache ≡ some (8, 1))
unfolding ℕ_discrete
shared_shutdown_closes_example = shared_shutdown_closes 5 none 7 0 com_a shared refl refl refl

shutdown_virtual_example :
    let w' = shutdown (virtual 77) none com_a shared in
    (find 77 w'.pool.in_virt_set ≡ (not (77 == 77) && find 77 shared.pool.in_virt_set))
    × (find_key 77 w'.pool.datagrams_received
        ≡ (if same {K = ℕ} 77 77 then none else find_key 77 shared.pool.datagrams_received))
    × (w'.closed ≡ elim waiting.socket_left [
      | none ↦ shared.closed
      | some sock ↦ if ltb 0 sock then shared.closed ++ sock ∷ [] else shared.closed
    ])
unfolding ℕ_discrete
shutdown_virtual_example = shutdown_virtual 77 77 waiting none com_a shared refl refl refl
