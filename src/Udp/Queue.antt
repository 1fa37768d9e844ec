-- ===== src/Udp/Queue.antt =====
-- The order of the bytes in the queue of a virtual socket.
use mathlib.Core.List.{append_assoc, append-nil}
use socle.Prelude.{
  ℕ, zero, suc, ◌%◌, ◌^◌, ◌≤◌, ◌<◌, min, ◌≡◌, refl, sym, ap, ◌∙◌, ◌⊎◌, inl, inr, Bool, true, false,
  Option, some, List, [], ◌∷◌, ◌++◌, arith, ltb, leb, ◌==◌, if◌then◌else◌, length, take, drop,
  length-take, take-append-drop, drop_all, take_all, length-drop, flushed, nat_key, find_key, store,
  find_key-store, pos, is_positive,
}
use socle.Epoll.Sets.{erase, find, insert, find-insert, find-erase}
use socle.Udp.{
  Datagram, DatagramCom, bytes_in, queue_bytes, enqueue_in, enqueue, as_int, min_int, Taken,
  behind_element, copied_element, take_element, take_first, after_taken, from_queue, read_from_pool,
}

-- The bytes of the queue in the order in which reads take them.
abbrev pub joined : List (List ℕ) → List ℕ
joined [] = []
joined (q ∷ qs) = q ++ joined qs

-- The places in use stand before the free ones.
abbrev pub Packed : List (List ℕ) → Type 0
Packed [] = Unit {0}
Packed ([] ∷ qs) = bytes_in qs ≡ 0
Packed ((x ∷ q) ∷ qs) = Packed qs

-- Is every place of the queue in use?
abbrev pub all_used : List (List ℕ) → Bool
all_used [] = true
all_used ([] ∷ qs) = false
all_used ((x ∷ q) ∷ qs) = all_used qs

joined-empty : (qs : List (List ℕ)) → bytes_in qs ≡ 0 → joined qs ≡ []
unfolding bytes_in
joined-empty [] h = refl
joined-empty ([] ∷ qs) h = joined-empty qs (omega arith)
joined-empty ((x ∷ q) ∷ qs) h = absurd (omega arith)

enqueue_in-joined :
    (bs : List ℕ) (qs : List (List ℕ))
    → Packed qs
    → let (n, qs') = enqueue_in bs qs in
      ((all_used qs ≡ false) × (n ≡ length bs) × (joined qs' ≡ joined qs ++ bs))
      ⊎ ((all_used qs ≡ true) × (n ≡ 0) × (qs' ≡ qs))
unfolding enqueue_in
enqueue_in-joined bs [] p = inr (refl, refl, refl)
enqueue_in-joined bs ([] ∷ qs) p = inl (refl, refl, rw (joined-empty qs p) (append-nil bs))
enqueue_in-joined bs ((x ∷ q) ∷ qs) p = elim (enqueue_in-joined bs qs p) [
  | inl (free, n, e) ↦
      inl (free, n, ap (λ ys. (x ∷ q) ++ ys) e ∙ sym (append_assoc (x ∷ q) (joined qs) bs))
  | inr (full, n, e) ↦ inr (full, n, ap (◌∷◌ (x ∷ q)) e)
]

-- A datagram that comes to a queue whose free places are its last ones: if a place is free, its
-- bytes are put behind all bytes that wait, and their number is returned; if every place is in use,
-- it is dropped whole, and then 0 is returned.
pub enqueue_in_order :
    (bs : List ℕ) (d : Datagram)
    → Packed d.rx_queue
    → let (n, d') = enqueue bs d in
      ((all_used d.rx_queue ≡ false)
        × (n ≡ length bs)
        × (joined d'.rx_queue ≡ joined d.rx_queue ++ bs))
      ⊎ ((all_used d.rx_queue ≡ true) × (n ≡ 0) × (d'.rx_queue ≡ d.rx_queue))
unfolding enqueue
enqueue_in_order bs d p = enqueue_in-joined bs d.rx_queue p

as_int-small : (n : ℕ) → n < 2 ^ 31 → as_int n ≡ pos n
unfolding as_int
as_int-small n h = let e : n % 2 ^ 32 ≡ n = omega arith in rw e (ground (arith, h))

is_positive-ltb : (n : ℕ) → is_positive (pos n) ≡ ltb 0 n
is_positive-ltb zero = refl
is_positive-ltb (suc n) = ground arith

take_first-empty :
    (n : ℕ) (qs : List (List ℕ))
    → take_first n false ([] ∷ qs) ≡ behind_element [] (take_first n false qs)
unfolding take_first
take_first-empty n qs =
    ap (λ z. take_element z n false [] qs (take_first n false qs)) (as_int-small 0 (omega arith))

take_first-bytes :
    (n x : ℕ) (q : List ℕ) (qs : List (List ℕ))
    → n < 2 ^ 31
    → length (x ∷ q) < 2 ^ 31
    → take_first n false ((x ∷ q) ∷ qs)
      ≡ copied_element (some (min n (length (x ∷ q)))) (length (x ∷ q)) false (x ∷ q) qs
unfolding take_first
take_first-bytes n x q qs small fits =
    let l = length (x ∷ q) in
    ap (λ z. take_element z n false (x ∷ q) qs (take_first n false qs)) (as_int-small l fits)
    ∙ ap (λ z. copied_element (min_int z l) l false (x ∷ q) qs) (as_int-small n small)

-- What a read takes: it is defined, takes the first bytes, and leaves the rest.
record Takes (n : ℕ) (qs : List (List ℕ)) (r : Option Taken) : Type 0 where
  taken : Taken
  done : r ≡ some taken
  bytes : joined qs ≡ taken.taken_bytes ++ joined taken.left_queue
  short : length taken.taken_bytes ≤ n
  some_taken : 0 < bytes_in qs → 0 < length taken.taken_bytes
  fewer : bytes_in taken.left_queue ≤ bytes_in qs
  whole : bytes_in taken.left_queue ≡ 0 → 0 < bytes_in qs → taken.is_whole ≡ true

take_first-Takes :
    (n : ℕ) (qs : List (List ℕ))
    → 0 < n
    → n < 2 ^ 31
    → bytes_in qs < 2 ^ 31
    → Takes n qs (take_first n false qs)
unfolding bytes_in
take_first-Takes n [] p small fits = record {
  taken = record { taken_bytes = []; is_whole = false; left_queue = [] };
  done = unfold take_first in refl;
  bytes = refl;
  short = omega arith;
  some_taken = λ h. absurd (omega arith);
  fewer = omega arith;
  whole = λ z h. absurd (omega arith);
}
take_first-Takes n ([] ∷ qs) p small fits =
    let r = take_first-Takes n qs p small (omega arith) in
    record {
      taken = record r.taken { left_queue = [] ∷ r.taken.left_queue };
      done = take_first-empty n qs ∙ ap (behind_element []) r.done;
      bytes = r.bytes;
      short = r.short;
      some_taken = λ h. r.some_taken (omega arith);
      fewer = omega (arith, r.fewer);
      whole = λ z h. r.whole (omega arith) (omega arith);
    }
take_first-Takes n ((x ∷ q) ∷ qs) p small fits =
    let k = min n (length (x ∷ q)) in
    let e : flushed k (x ∷ q) ≡ drop k (x ∷ q) = ground arith in
    let l = length-take k (x ∷ q) in
    let m = length-drop k (x ∷ q) in
    record {
      taken = record {
        taken_bytes = take k (x ∷ q);
        is_whole = leb (length (x ∷ q)) k;
        left_queue = flushed k (x ∷ q) ∷ qs;
      };
      done = take_first-bytes n x q qs small (omega arith);
      bytes = rw e (
          ap (λ ys. ys ++ joined qs) (sym (take-append-drop k (x ∷ q)))
          ∙ append_assoc (take k (x ∷ q)) (drop k (x ∷ q)) (joined qs));
      short = omega (arith, l);
      some_taken = λ h. omega (arith, l);
      fewer = omega (arith, ap length e, m);
      whole = λ z h. ground (arith, ap length e, m, z);
    }

read_from_pool-queue :
    (recv : ℕ → ℕ → Option (List ℕ)) (s n : ℕ) (peek : Bool) (d : Datagram) (c : DatagramCom)
    → find_key s c.datagrams_received ≡ some d
    → 0 < queue_bytes d
    → read_from_pool recv s n peek c ≡ from_queue s n peek d c
unfolding read_from_pool
read_from_pool-queue recv s n peek d c known has_bytes = rw (known, read_from_pool) (ground arith)

from_queue-taken :
    (s n : ℕ) (d : Datagram) (c : DatagramCom) (t : Taken)
    → take_first n false d.rx_queue ≡ some t
    → bytes_in t.left_queue < 2 ^ 31
    → from_queue s n false d c
      ≡ some (
        some t.taken_bytes,
        record c {
          datagrams_received = store s (record d { rx_queue = t.left_queue }) c.datagrams_received;
          in_virt_set =
              if ltb 0 (bytes_in t.left_queue)
              then insert s (if t.is_whole then erase s c.in_virt_set else c.in_virt_set)
              else if t.is_whole
              then erase s c.in_virt_set
              else c.in_virt_set;
        },
      )
unfolding from_queue
from_queue-taken s n d c t e fits =
    let positive : is_positive (as_int (bytes_in t.left_queue)) ≡ ltb 0 (bytes_in t.left_queue) =
      ap is_positive (as_int-small (bytes_in t.left_queue) fits)
      ∙ is_positive-ltb (bytes_in t.left_queue) in
    let read_set = if t.is_whole then erase s c.in_virt_set else c.in_virt_set in
    let after : Bool → Option (Option (List ℕ) × DatagramCom) = λ b. some (
      some t.taken_bytes,
      record c {
        datagrams_received = store s (record d { rx_queue = t.left_queue }) c.datagrams_received;
        in_virt_set = if b then insert s read_set else read_set;
      },
    ) in
    ap (after_taken s false d c) e ∙ ap after positive

-- A read of at least one byte and fewer than 2^31 from the queue of a virtual socket that has bytes,
-- fewer than 2^31, is defined, and returns the first of the bytes that wait, at least one and at
-- most as many as it asks for, and leaves the others in their order; and the socket stays in the set
-- of readable ones exactly while bytes are left.
pub read_in_order :
    (recv : ℕ → ℕ → Option (List ℕ)) (s n : ℕ) (d : Datagram) (c : DatagramCom)
    → find_key s c.datagrams_received ≡ some d
    → 0 < n
    → n < 2 ^ 31
    → 0 < queue_bytes d
    → queue_bytes d < 2 ^ 31
    → (bs : List ℕ) × (d' : Datagram) × (c' : DatagramCom) × (read_from_pool recv s n false c
        ≡ some (some bs, c'))
      × (find_key s c'.datagrams_received ≡ some d')
      × (joined d.rx_queue ≡ bs ++ joined d'.rx_queue)
      × (0 < length bs)
      × (length bs ≤ n)
      × (find s c'.in_virt_set ≡ ltb 0 (queue_bytes d'))
read_in_order recv s n d c known p small has_bytes fits =
    let r = take_first-Takes n d.rx_queue p small fits in
    let t = r.taken in
    let d' = record d { rx_queue = t.left_queue } in
    let read_set = if t.is_whole then erase s c.in_virt_set else c.in_virt_set in
    let c' = record c {
      datagrams_received = store s d' c.datagrams_received;
      in_virt_set = if ltb 0 (bytes_in t.left_queue) then insert s read_set else read_set;
    } in
    (
      t.taken_bytes,
      d',
      c',
      read_from_pool-queue recv s n false d c known has_bytes
          ∙ from_queue-taken s n d c t r.done (omega (arith, r.fewer)),
      find_key-store s s d' c.datagrams_received ∙ ground arith,
      r.bytes,
      r.some_taken has_bytes,
      r.short,
      ground (
        arith,
        find-insert s s c.in_virt_set,
        find-insert s s (erase s c.in_virt_set),
        find-erase s s c.in_virt_set,
        λ (z : bytes_in t.left_queue ≡ 0). r.whole z has_bytes,
      ),
    )

overtakes :
    (n x y : ℕ) (xs ys bs : List ℕ) (qs : List (List ℕ))
    → length (x ∷ xs) ≤ n
    → let k = min n (length (x ∷ xs)) in
      let (m, rest) = enqueue_in bs (flushed k (x ∷ xs) ∷ (y ∷ ys) ∷ qs) in
      (take k (x ∷ xs) ≡ x ∷ xs) × (m ≡ length bs) × (joined rest ≡ bs ++ ((y ∷ ys) ++ joined qs))
unfolding enqueue_in
overtakes n x y xs ys bs qs le =
    let k = min n (length (x ∷ xs)) in
    let e : k ≡ length (x ∷ xs) = omega arith in
    rw e (
      rw (drop_all (length (x ∷ xs)) (x ∷ xs) (omega arith)) (
        let flag : (suc (length xs) == 0) ≡ false = ground arith in
        rw flag (ap (◌∷◌ x) (take_all (length xs) xs (omega arith)), refl, refl)))

-- Two datagrams wait, and the first is read whole, by a read of fewer than 2^31 bytes: the next
-- datagram that comes takes its place, so that its bytes are read before those of the second.
pub enqueue_overtakes :
    (n x y : ℕ) (xs ys bs : List ℕ) (qs : List (List ℕ)) (d : Datagram)
    → d.rx_queue ≡ (x ∷ xs) ∷ (y ∷ ys) ∷ qs
    → length (x ∷ xs) ≤ n
    → n < 2 ^ 31
    → (t : Taken) × (take_first n false d.rx_queue ≡ some t)
      × (t.taken_bytes ≡ x ∷ xs)
      × (let (m, d') = enqueue bs (record d { rx_queue = t.left_queue }) in
          (m ≡ length bs) × (joined d'.rx_queue ≡ bs ++ ((y ∷ ys) ++ joined qs)))
unfolding enqueue
enqueue_overtakes n x y xs ys bs qs d waiting le small =
    let k = min n (length (x ∷ xs)) in
    let (all_taken, size, order) = overtakes n x y xs ys bs qs le in
    (
      record {
        taken_bytes = take k (x ∷ xs);
        is_whole = leb (length (x ∷ xs)) k;
        left_queue = flushed k (x ∷ xs) ∷ (y ∷ ys) ∷ qs;
      },
      ap (take_first n false) waiting ∙ take_first-bytes n x xs ((y ∷ ys) ∷ qs) small (omega arith),
      all_taken,
      (size, order),
    )
