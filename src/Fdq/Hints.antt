-- ===== src/Fdq/Hints.antt =====
-- Whom `push_all` wakes up.

-- Loads from the least on.
use socle.Prelude.{
  ℕ, suc, ◌+◌, ◌/◌, ◌≤◌, max, ◌≡◌, refl, sym, ap, subst, inl, inr, Bool, Option, List, [], ◌∷◌,
  arith, ltb, if◌then◌else◌, Bool-cases, length, take,
}
use socle.Fdq.{WorkerPipe, FdQueue, insert_candidate, insert_all, notify, push_all}

abbrev pub Sorted : List WorkerPipe → Type 0
Sorted [] = Unit
Sorted (p ∷ []) = Unit
Sorted (p ∷ q ∷ qs) = (p.seen_worker_load ≤ q.seen_worker_load) × Sorted (q ∷ qs)

abbrev Above : ℕ → List WorkerPipe → Type 0
Above n [] = Unit
Above n (p ∷ ps) = n ≤ p.seen_worker_load

Sorted-cons :
    (p : WorkerPipe) (ps : List WorkerPipe)
    → Above p.seen_worker_load ps
    → Sorted ps
    → Sorted (p ∷ ps)
Sorted-cons p [] a s = tt
Sorted-cons p (q ∷ qs) a s = (a, s)

insert-Above :
    (n : ℕ) (p : WorkerPipe) (qs : List WorkerPipe)
    → n ≤ p.seen_worker_load
    → Above n qs
    → Above n (insert_candidate p qs)
unfolding insert_candidate
insert-Above n p [] le a = le
insert-Above n p (q ∷ qs) le a = ground arith

insert_candidate-Sorted :
    (p : WorkerPipe) (qs : List WorkerPipe) → Sorted qs → Sorted (insert_candidate p qs)
unfolding insert_candidate
insert_candidate-Sorted p [] s = tt
insert_candidate-Sorted p (q ∷ []) s = ground arith
insert_candidate-Sorted p (q ∷ r ∷ rs) s =
    elim (Bool-cases (ltb p.seen_worker_load q.seen_worker_load)) [
      | inl less ↦
          subst (λ b. Sorted (if b then p ∷ q ∷ r ∷ rs else q ∷ insert_candidate p (r ∷ rs)))
            (sym less) (ground arith, s)
      | inr least ↦
          subst (λ b. Sorted (if b then p ∷ q ∷ r ∷ rs else q ∷ insert_candidate p (r ∷ rs)))
            (sym least)
            (Sorted-cons q (insert_candidate p (r ∷ rs))
              (insert-Above q.seen_worker_load p (r ∷ rs) (ground arith) s.0)
              (insert_candidate-Sorted p (r ∷ rs) s.1))
    ]

insert_all-Sorted :
    (ps : List (ℕ × WorkerPipe)) (cs : List WorkerPipe) → Sorted cs → Sorted (insert_all ps cs)
unfolding insert_all
insert_all-Sorted [] cs s = s
insert_all-Sorted ((k, p) ∷ ps) cs s =
    insert_all-Sorted ps (insert_candidate p cs) (insert_candidate-Sorted p cs s)

length-insert_candidate :
    (p : WorkerPipe) (qs : List WorkerPipe) → length (insert_candidate p qs) ≡ suc (length qs)
unfolding insert_candidate
length-insert_candidate p [] = refl
length-insert_candidate p (q ∷ qs) = ground (arith, length-insert_candidate p qs)

length-insert_all :
    (ps : List (ℕ × WorkerPipe)) (cs : List WorkerPipe)
    → length (insert_all ps cs) ≡ length ps + length cs
unfolding insert_all
length-insert_all [] cs = omega arith
length-insert_all ((k, p) ∷ ps) cs =
    omega (arith, length-insert_all ps (insert_candidate p cs), length-insert_candidate p cs)

module _ (written : Option ℕ → Bool) where
  -- The hints are the first of the candidates.
  notify-take :
      (half : ℕ) (cs : List WorkerPipe) (sum : ℕ) (flag : Bool)
      → let (hints, flag') = notify written half cs sum flag in
        (hints ≡ take (length hints) cs) × (sum + length hints ≤ max sum half)
  unfolding notify
  notify-take half [] sum flag = (refl, omega arith)
  notify-take half (c ∷ cs) sum flag =
      ground
        (arith, notify-take half cs (sum + 1 + (if written c.pipe_to_worker then 1 else 0)) flag)

  -- `push_all` writes hints to workers of the least load that it has seen, from the least on, and to
  -- at most half of the workers.
  pub push_all_hints :
      (f : FdQueue) (s : ℕ)
      → let (n, hints, f') = push_all written f s in
        let candidates = insert_all f.hint_pairs_ [] in
        (n ≡ length candidates)
        × Sorted candidates
        × (hints ≡ take (length hints) candidates)
        × (length hints ≤ n / 2)
  unfolding push_all
  push_all_hints f s =
      let n = length f.hint_pairs_ in
      let (prefix, few) =
        notify-take (n / 2) (insert_all f.hint_pairs_ []) 0 f.feedback_queue_empty in
      (
        omega (arith, length-insert_all f.hint_pairs_ []),
        insert_all-Sorted f.hint_pairs_ [] tt,
        prefix,
        omega (arith, few),
      )

  -- Where there is one worker only, `push_all` wakes nobody.
  pub push_all_single :
      (f : FdQueue) (s k : ℕ) (p : WorkerPipe)
      → f.hint_pairs_ ≡ (k, p) ∷ []
      → (push_all written f s).1 ≡ []
  push_all_single f s k p h =
      let (n, sorted, prefix, few) = push_all_hints f s in
      let none_due : length (push_all written f s).1 ≡ 0 =
        omega (arith, few, n, length-insert_all f.hint_pairs_ [], ap length h) in
      ground (arith, none_due)
