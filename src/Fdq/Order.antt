-- ===== src/Fdq/Order.antt =====
-- The order of the sockets in the queue, over any sequence of calls.
use mathlib.Core.List.{append_assoc, append-nil}
use socle.Prelude.{
  ℕ, ◌<◌, ◌≡◌, refl, sym, ap, ◌∙◌, subst, inl, inr, Bool, Option, none, some, List, [], ◌∷◌, ◌++◌,
  arith, ◌==◌, if◌then◌else◌, Option-cases, All,
}
use socle.Fdq.{FdQueue, push_all, update_load, last_of, but_last, pop, pop_if}

pub data QueueCall : Type 0 where
  pushes : ℕ → QueueCall
  pops : ℕ → QueueCall
  pops_if : (ℕ → Bool) → QueueCall
  updates : ℕ → ℕ → QueueCall

abbrev pub oldest_first : List ℕ → List ℕ
oldest_first [] = []
oldest_first (x ∷ xs) = oldest_first xs ++ x ∷ []

-- the sockets that are pushed, in order
abbrev pub pushed : List QueueCall → List ℕ
pushed [] = []
pushed (pushes s ∷ cs) = s ∷ pushed cs
pushed (pops k ∷ cs) = pushed cs
pushed (pops_if p ∷ cs) = pushed cs
pushed (updates k l ∷ cs) = pushed cs

-- 0 is no socket for the clients of `pop`.
abbrev pub socket : ℕ → List ℕ
socket s = if s == 0 then [] else s ∷ []

abbrev pub opt_socket : Option ℕ → List ℕ
opt_socket none = []
opt_socket (some s) = s ∷ []

module _ (written : Option ℕ → Bool) where
  -- a call: the sockets that it returns, and the queue
  unfoldable pub serve : FdQueue → QueueCall → List ℕ × FdQueue
  serve f (pushes s) = let (n, hints, f') = push_all written f s in ([], f')
  serve f (pops k) = let (s, f') = pop f k in (socket s, f')
  serve f (pops_if p) = let (s, f') = pop_if f p in (opt_socket s, f')
  serve f (updates k l) = ([], update_load f k l)

  unfoldable pub serve_all : FdQueue → List QueueCall → List ℕ × FdQueue
  serve_all f [] = ([], f)
  serve_all f (c ∷ cs) =
      let (ss, f') = serve f c in let (ss', f'') = serve_all f' cs in (ss ++ ss', f'')

oldest_first-last :
    (xs : List ℕ) (s : ℕ) → last_of xs ≡ some s → oldest_first xs ≡ s ∷ oldest_first (but_last xs)
oldest_first-last [] s h = cc
oldest_first-last (x ∷ []) s h = ground arith
oldest_first-last (x ∷ y ∷ ys) s h = ap (λ z. z ++ x ∷ []) (oldest_first-last (y ∷ ys) s h)

last_of-none : (xs : List ℕ) → last_of xs ≡ none → xs ≡ []
last_of-none [] h = refl
last_of-none (x ∷ []) h = cc
last_of-none (x ∷ y ∷ ys) h = absurd (some-last y ys h)
  where
    some-last : (y : ℕ) (ys : List ℕ) → ¬ (last_of (y ∷ ys) ≡ none)
    some-last y [] h = cc
    some-last y (z ∷ zs) h = some-last z zs h

All-last :
    (xs : List ℕ) (s : ℕ)
    → All (λ s. 0 < s) xs
    → last_of xs ≡ some s
    → (0 < s) × All (λ s. 0 < s) (but_last xs)
All-last [] s a h = cc
All-last (x ∷ []) s a h = ground arith
All-last (x ∷ y ∷ ys) s a h = let (p, r) = All-last (y ∷ ys) s a.1 h in (p, (a.0, r))

-- What a call returns and leaves, oldest first.
abbrev Moves : List ℕ → List ℕ → List ℕ × FdQueue → Type 0
Moves before new r = (r.0 ++ oldest_first r.1.sq_ ≡ before ++ new) × All (λ s. 0 < s) r.1.sq_

pop-Moves :
    (f : FdQueue) (k : ℕ)
    → All (λ s. 0 < s) f.sq_
    → Moves (oldest_first f.sq_) [] (socket (pop f k).0, (pop f k).1)
unfolding pop
pop-Moves f k a = elim (Option-cases (last_of f.sq_)) [
  | inl h ↦ ground (arith, last_of-none f.sq_ h)
  | inr (s, h) ↦
      ground
        (arith, oldest_first-last f.sq_ s h, All-last f.sq_ s a h, append-nil (oldest_first f.sq_))
]

pop_if-Moves :
    (f : FdQueue) (p : ℕ → Bool)
    → All (λ s. 0 < s) f.sq_
    → Moves (oldest_first f.sq_) [] (opt_socket (pop_if f p).0, (pop_if f p).1)
unfolding pop_if
pop_if-Moves f p a = elim (Option-cases (last_of f.sq_)) [
  | inl h ↦ ground (arith, append-nil (oldest_first f.sq_))
  | inr (s, h) ↦
      ground
        (arith, oldest_first-last f.sq_ s h, All-last f.sq_ s a h, append-nil (oldest_first f.sq_))
]

push_all-queue :
    (written : Option ℕ → Bool) (f : FdQueue) (s : ℕ) → (push_all written f s).2.sq_ ≡ s ∷ f.sq_
unfolding push_all
push_all-queue written f s = refl

update_load-queue : (f : FdQueue) (k l : ℕ) → (update_load f k l).sq_ ≡ f.sq_
unfolding update_load
update_load-queue f k l = refl

-- no socket 0 is pushed
abbrev pub Positive : QueueCall → Type 0
Positive (pushes s) = 0 < s
Positive (pops k) = Unit
Positive (pops_if p) = Unit
Positive (updates k l) = Unit

module _ (written : Option ℕ → Bool) where
  serve-Moves :
      (f : FdQueue) (c : QueueCall)
      → All (λ s. 0 < s) f.sq_
      → Positive c
      → Moves (oldest_first f.sq_) (pushed (c ∷ [])) (serve written f c)
  unfolding serve
  serve-Moves f (pushes s) a p = (
    ap oldest_first (push_all-queue written f s),
    subst (All (λ s. 0 < s)) (sym (push_all-queue written f s)) (p, a),
  )
  serve-Moves f (pops k) a p = pop-Moves f k a
  serve-Moves f (pops_if q) a p = pop_if-Moves f q a
  serve-Moves f (updates k l) a p = (
    ap oldest_first (update_load-queue f k l) ∙ sym (append-nil (oldest_first f.sq_)),
    subst (All (λ s. 0 < s)) (sym (update_load-queue f k l)) a,
  )

  pushed-cons :
      (c : QueueCall) (cs : List QueueCall) → pushed (c ∷ cs) ≡ pushed (c ∷ []) ++ pushed cs
  pushed-cons (pushes s) cs = refl
  pushed-cons (pops k) cs = refl
  pushed-cons (pops_if p) cs = refl
  pushed-cons (updates k l) cs = refl

  -- The queue is first in, first out, whatever the workers' hints and loads are: over any sequence
  -- of calls that pushes no socket 0, on a queue that has none, the sockets that were handed out,
  -- followed by those that wait, oldest first, are those that waited before and those pushed, in
  -- order. No socket is lost, doubled or overtaken.
  pub serve_all_ordered :
      (f : FdQueue) (cs : List QueueCall)
      → All (λ s. 0 < s) f.sq_
      → All Positive cs
      → let (ss, f') = serve_all written f cs in
        ss ++ oldest_first f'.sq_ ≡ oldest_first f.sq_ ++ pushed cs
  unfolding serve_all
  serve_all_ordered f [] a p = sym (append-nil (oldest_first f.sq_))
  serve_all_ordered f (c ∷ cs) a p =
      let (ss, f') = serve written f c in
      let (moved, a') = serve-Moves f c a p.0 in
      let (ss', f'') = serve_all written f' cs in
      append_assoc ss ss' (oldest_first f''.sq_)
      ∙ ap (λ z. ss ++ z) (serve_all_ordered f' cs a' p.1)
      ∙ sym (append_assoc ss (oldest_first f'.sq_) (pushed cs))
      ∙ ap (λ z. z ++ pushed cs) moved
      ∙ append_assoc (oldest_first f.sq_) (pushed (c ∷ [])) (pushed cs)
      ∙ ap (λ z. oldest_first f.sq_ ++ z) (sym (pushed-cons c cs))
