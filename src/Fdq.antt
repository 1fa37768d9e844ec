-- ===== src/Fdq.antt =====
-- fdq.hpp and fdq.cpp: the queue of sockets that a receiver hands to its workers, and the hints that
-- wake them up. Each function is one step under the lock. Pipes are outside: whether a write of a
-- hint succeeds is the parameter `written`, and the hints are the list of the sockets written to.

-- `pipe_to_scheduler` and `pipe_to_worker` are the two ends of `pipe`; -1 is `none`.
pub mod Order
pub mod Hints
mod Tests
use socle.Prelude.{
  ℕ, ◌+◌, ◌/◌, Bool, true, false, Option, none, some, List, [], ◌∷◌, map, ltb, ◌==◌, if◌then◌else◌,
  length, nat_key, find_key,
}

pub record WorkerPipe : Type 0 where
  pub pipe_to_scheduler : Option ℕ
  pub pipe_to_worker : Option ℕ
  pub seen_worker_load : ℕ

abbrev pub no_pipe : WorkerPipe
no_pipe = record { pipe_to_scheduler = none; pipe_to_worker = none; seen_worker_load = 0 }

-- `hint_pairs_` in the order of the worker ids. `feedback_queue_empty` is a static member of
-- `WorkerPipe`.
pub record FdQueue : Type 0 where
  pub sq_ : List ℕ
  pub hint_pairs_ : List (ℕ × WorkerPipe)
  pub feedback_queue_empty : Bool

-- `std::map::operator[]`, with the new value where the key is missing
unfoldable pub put_pair : ℕ → WorkerPipe → List (ℕ × WorkerPipe) → List (ℕ × WorkerPipe)
put_pair k p [] = (k, p) ∷ []
put_pair k p ((j, q) ∷ ps) =
    let rest = put_pair k p ps in
    if ltb k j then (k, p) ∷ (j, q) ∷ ps else if k == j then (k, p) ∷ ps else (j, q) ∷ rest

-- `new_pair(id)`, for the two ends that the system made
unfoldable pub new_pair : FdQueue → ℕ → ℕ → ℕ → FdQueue
new_pair f k a b = record f {
  hint_pairs_ =
      put_pair k
        (record { pipe_to_scheduler = some a; pipe_to_worker = some b; seen_worker_load = 0 })
        f.hint_pairs_;
}

-- `std::multimap::insert`: behind the entries of the same load
unfoldable pub insert_candidate : WorkerPipe → List WorkerPipe → List WorkerPipe
insert_candidate p [] = p ∷ []
insert_candidate p (q ∷ qs) =
    let rest = insert_candidate p qs in
    if ltb p.seen_worker_load q.seen_worker_load then p ∷ q ∷ qs else q ∷ rest

-- the loop that fills `candidates`
unfoldable pub insert_all : List (ℕ × WorkerPipe) → List WorkerPipe → List WorkerPipe
insert_all [] cs = cs
insert_all ((k, p) ∷ ps) cs = insert_all ps (insert_candidate p cs)

module _ (written : Option ℕ → Bool) where
  -- The loop over the candidates: the pipes written to, and the flag after it. `half` is half the
  -- number of workers.
  unfoldable pub notify : ℕ → List WorkerPipe → ℕ → Bool → List WorkerPipe × Bool
  notify half [] written_sum flag = ([], flag)
  notify half (candy ∷ cs) written_sum flag =
      let sum = written_sum + 1 + (if written candy.pipe_to_worker then 1 else 0) in
      let (ps, flag') = notify half cs sum flag in
      if ltb half (written_sum + 1)
      then ([], flag)
      else if flag
      then (candy ∷ [], false)
      else (candy ∷ ps, flag')

  -- `push_all`: the number of workers, the hints, and the queue
  unfoldable pub push_all : FdQueue → ℕ → ℕ × List WorkerPipe × FdQueue
  push_all f s =
      let entry_count = length f.hint_pairs_ in
      let (hints, flag) =
        notify (entry_count / 2) (insert_all f.hint_pairs_ []) 0 f.feedback_queue_empty in
      (entry_count, hints, record f { sq_ = s ∷ f.sq_; feedback_queue_empty = flag })

unfoldable pub update_load : FdQueue → ℕ → ℕ → FdQueue
update_load f k load = record f { hint_pairs_ = map seen f.hint_pairs_ }
  where
    seen : ℕ × WorkerPipe → ℕ × WorkerPipe
    seen (j, p) = if j == k then (j, record p { seen_worker_load = load }) else (j, p)

abbrev pub last_of : List ℕ → Option ℕ
last_of [] = none
last_of (x ∷ []) = some x
last_of (x ∷ y ∷ ys) = last_of (y ∷ ys)

abbrev pub but_last : List ℕ → List ℕ
but_last [] = []
but_last (x ∷ []) = []
but_last (x ∷ y ∷ ys) = x ∷ but_last (y ∷ ys)

abbrev pub is_empty : List ℕ → Bool
is_empty [] = true
is_empty (x ∷ xs) = false

-- `pop`: a worker without a pair of pipes gets one that is not open. 0 stands for no socket.
unfoldable pub pop : FdQueue → ℕ → ℕ × FdQueue
pop f worker_id =
    let pairs : List (ℕ × WorkerPipe) = elim (find_key worker_id f.hint_pairs_) [
      | none ↦ put_pair worker_id no_pipe f.hint_pairs_
      | some p ↦ f.hint_pairs_
    ] in
    elim (last_of f.sq_) [
      | none ↦ (0, record f { hint_pairs_ = pairs; feedback_queue_empty = true })
      | some s ↦ (
        s,
        record f {
          hint_pairs_ = pairs;
          sq_ = but_last f.sq_;
          feedback_queue_empty = if is_empty (but_last f.sq_) then true else f.feedback_queue_empty;
        },
      )
    ]

unfoldable pub pop_if : FdQueue → (ℕ → Bool) → Option ℕ × FdQueue
pop_if f check_true = elim (last_of f.sq_) [
  | none ↦ (none, f)
  | some val ↦ if check_true val then (some val, record f { sq_ = but_last f.sq_ }) else (none, f)
]
