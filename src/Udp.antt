-- ===== src/Udp.antt =====
-- udpcom.hpp and udpcom.cpp: the datagrams that a receiver has taken in for a virtual socket, and
-- what UDPCom reads of them. A virtual socket, negative in the source, is the number that it is as
-- `unsigned int`.
pub mod Connections
pub mod Queue
pub mod Shutdown
mod Tests
use socle.Prelude.{
  ℕ, zero, suc, ◌+◌, ◌-◌, ◌%◌, ◌^◌, min, Bool, true, false, not, ◌&&◌, Option, none, some, List, [],
  ◌∷◌, ltb, leb, ◌==◌, if◌then◌else◌, length, take, flushed, nat_key, find_key, store, ℤ, pos,
  negsuc, is_positive,
}
use socle.Epoll.Sets.{erase, insert}

pub data Socket : Type 0 where
  real : ℕ → Socket
  virtual : ℕ → Socket

pub record Datagram : Type 0 where
  pub socket_left : Option ℕ
  pub reuse : Bool
  pub rx_queue : List (List ℕ)

pub record DatagramCom : Type 0 where
  pub datagrams_received : List (ℕ × Datagram)
  pub in_virt_set : List ℕ

-- `embryon`
pub record Embryon : Type 0 where
  pub id : ℕ
  pub pool_depleted : Bool

unfoldable pub bytes_in : List (List ℕ) → ℕ
bytes_in [] = 0
bytes_in (q ∷ qs) = length q + bytes_in qs

abbrev pub queue_bytes : Datagram → ℕ
queue_bytes d = bytes_in d.rx_queue

-- The loop of `enqueue` over the five places of the queue.
unfoldable pub enqueue_in : List ℕ → List (List ℕ) → ℕ × List (List ℕ)
enqueue_in bs [] = (0, [])
enqueue_in bs ([] ∷ qs) = (length bs, bs ∷ qs)
enqueue_in bs ((x ∷ q) ∷ qs) = let (n, qs') = enqueue_in bs qs in (n, (x ∷ q) ∷ qs')

unfoldable pub enqueue : List ℕ → Datagram → ℕ × Datagram
enqueue bs d = let (n, qs) = enqueue_in bs d.rx_queue in (n, record d { rx_queue = qs })

-- A `size_t` that becomes an `int`.
unfoldable pub as_int : ℕ → ℤ
as_int n = let v = n % 2 ^ 32 in if ltb v (2 ^ 31) then pos v else negsuc (2 ^ 32 - v - 1)

-- `std::min<int>(_n, elem_size)`, for a positive `elem_size`; none where it is negative, and memcpy
-- would be asked for nearly 2^64 bytes.
abbrev pub min_int : ℤ → ℕ → Option ℕ
min_int (pos n) elem_size = some (min n elem_size)
min_int (negsuc n) elem_size = none

-- What a read takes from a queue: the bytes that are copied, whether these are all of their element,
-- and the queue after it.
pub record Taken : Type 0 where
  pub taken_bytes : List ℕ
  pub is_whole : Bool
  pub left_queue : List (List ℕ)

abbrev pub behind_element : List ℕ → Option Taken → Option Taken
behind_element q none = none
behind_element q (some t) = some (record t { left_queue = q ∷ t.left_queue })

abbrev pub copied_element : Option ℕ → ℕ → Bool → List ℕ → List (List ℕ) → Option Taken
copied_element none elem_size peek q qs = none
copied_element (some k) elem_size peek q qs = some (record {
  taken_bytes = take k q;
  is_whole = leb elem_size k;
  left_queue = (if peek then q else flushed k q) ∷ qs;
})

-- One element of the queue, by its size: bytes are copied from it, or it is passed over, with what
-- the rest of the loop takes.
abbrev pub take_element : ℤ → ℕ → Bool → List ℕ → List (List ℕ) → Option Taken → Option Taken
take_element (pos zero) n peek q qs rest = behind_element q rest
take_element (pos (suc m)) n peek q qs rest =
    copied_element (min_int (as_int n) (suc m)) (suc m) peek q qs
take_element (negsuc m) n peek q qs rest = behind_element q rest

-- The loop over the elements: it copies from the first one with bytes.
unfoldable pub take_first : ℕ → Bool → List (List ℕ) → Option Taken
take_first n peek [] = some (record { taken_bytes = []; is_whole = false; left_queue = [] })
take_first n peek (q ∷ qs) = take_element (as_int (length q)) n peek q qs (take_first n peek qs)

-- What a read of a virtual socket does with what it has taken. The sum of the bytes that are left is
-- an `int`.
abbrev pub after_taken :
    ℕ → Bool → Datagram → DatagramCom → Option Taken → Option (Option (List ℕ) × DatagramCom)
after_taken s peek d c none = none
after_taken s peek d c (some t) =
    let read_set = if not peek && t.is_whole then erase s c.in_virt_set else c.in_virt_set in
    some (
      some t.taken_bytes,
      record c {
        datagrams_received = store s (record d { rx_queue = t.left_queue }) c.datagrams_received;
        in_virt_set =
            if is_positive (as_int (bytes_in t.left_queue)) then insert s read_set else read_set;
      },
    )

-- A read of the queue of a virtual socket that has bytes, and what becomes of the set of readable
-- virtual sockets.
unfoldable pub from_queue :
    ℕ → ℕ → Bool → Datagram → DatagramCom → Option (Option (List ℕ) × DatagramCom)
from_queue s n peek d c = after_taken s peek d c (take_first n peek d.rx_queue)

module _ (recv : ℕ → ℕ → Option (List ℕ)) where
  -- The result of a read: the bytes, or none where the system's recv failed; and no result at all
  -- where the code is undefined.
  unfoldable pub read_from_pool :
      ℕ → ℕ → Bool → DatagramCom → Option (Option (List ℕ) × DatagramCom)
  read_from_pool s n peek c = elim (find_key s c.datagrams_received) [
    | none ↦ some (some [], c)
    | some d ↦ elim d.socket_left [
      | none ↦ if queue_bytes d == 0 then some (some [], c) else from_queue s n peek d c
      | some sock ↦ if queue_bytes d == 0 then some (recv sock n, c) else from_queue s n peek d c
    ]
  ]

  -- The sum of the bytes in the queue is an `int` here too.
  unfoldable pub in_readset : (ℕ → Bool) → Socket → DatagramCom → Bool
  in_readset base_in_readset (real s) c = ltb 0 s && base_in_readset s
  in_readset base_in_readset (virtual s) c = elim (find_key s c.datagrams_received) [
    | none ↦ false
    | some d ↦
        if is_positive (as_int (queue_bytes d))
        then true
        else elim d.socket_left [ none ↦ false | some sock ↦ base_in_readset sock ]
  ]

  -- the set of readable virtual sockets after a read of the pool by a UDPCom with the state `e`
  unfoldable pub after_pool_read :
      (ℕ → Bool) → Embryon → Option (List ℕ) × DatagramCom → Option (List ℕ) × Embryon × DatagramCom
  after_pool_read base_in_readset e (r, c) =
      if in_readset base_in_readset (virtual e.id) c then (r, e, c) else (
        r,
        record e { pool_depleted = true },
        record c { in_virt_set = erase e.id c.in_virt_set },
      )

  -- `read` of a UDPCom with the state `e`, of the virtual socket `e.id` where it is not 0
  unfoldable pub read :
      (ℕ → Bool)
      → Socket
      → ℕ
      → Bool
      → Embryon
      → DatagramCom
      → Option (Option (List ℕ) × Embryon × DatagramCom)
  read base_in_readset fd n peek e c =
      if not (e.id == 0) && not e.pool_depleted
      then elim (read_from_pool e.id n peek c) [
        | none ↦ none
        | some rc ↦ some (after_pool_read base_in_readset e rc)
      ]
      else elim fd [
        | real s ↦ some (recv s n, e, c)
        | virtual s ↦ elim (read_from_pool s n peek c) [
          | none ↦ none
          | some (r, c') ↦ some (r, e, c')
        ]
      ]
