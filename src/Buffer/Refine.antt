-- ===== src/Buffer/Refine.antt =====
-- A client's sequence of calls on one buffer, against a list of bytes.
use socle.Prelude.{
  ℕ, zero, suc, ◌+◌, ◌^◌, ◌≤◌, ◌<◌, ◌≡◌, refl, sym, ap, ◌∙◌, subst, inl, inr, true, false, List, [],
  ◌∷◌, ◌++◌, arith, leb, ◌==◌, if◌then◌else◌, Bool-cases, length, take, drop, replicate,
}
use socle.Buffer.{clear, Throws, returns, throws, set_capacity, set_size, append, fill, flush, str}
use socle.Buffer.Append.{append-Appended}
use socle.Buffer.Content.{cleared-Frame, flush-Flushed}
use socle.Buffer.Frame.{IsValid, Frame}
use socle.Buffer.Growth.{set_capacity-Grown}
use socle.Buffer.State.{Buffer, World}
use socle.Buffer.View.{fill-str}
use socle.MemPool.Places.{IsWell}
use socle.MemPool.Ranges.{IsHeld}
use socle.Memory.{read, Memory, Apart}
use socle.Memory.Ranges.{read-zero, length-read}

pub data Op : Type 0 where
  -- the bytes of a range that somebody else holds
  appends : ℕ → ℕ → Op
  flushes : ℕ → Op
  fills : ℕ → Op
  clears : Op
  reserves : ℕ → Op
  -- `size(size_type)`
  resizes : ℕ → Op

abbrev or_else {ℓ} : {A : Type ℓ} → Throws A → A → A
or_else (returns a) d = a
or_else (throws e) d = d

-- The calls that the methods of `buffer` make. A call that threw would leave all as it was.
unfoldable pub step : World × Buffer → Op → World × Buffer
step (w, b) (appends d s) = append w b d s
step (w, b) (flushes n) = or_else (flush w b n) (w, b)
step (w, b) (fills v) = (fill w b v, b)
step (w, b) clears = (w, clear b)
step (w, b) (reserves n) = let (r, w', b') = set_capacity w b n in (w', b')
step (w, b) (resizes n) = let (r, w', b') = set_size w b n in (w', b')

unfoldable pub run : World × Buffer → List Op → World × Buffer
run s [] = s
run s (o ∷ os) = run (step s o) os

-- The same calls on a list of bytes.
abbrev pub step_list : Memory → List ℕ → Op → List ℕ
step_list m bs (appends d s) = bs ++ read m d s
step_list m bs (flushes n) = if n == 0 then [] else drop n bs
step_list m bs (fills v) = replicate (length bs) v
step_list m bs clears = []
step_list m bs (reserves n) = bs
step_list m bs (resizes n) = take n bs

unfoldable pub run_list : Memory → List ℕ → List Op → List ℕ
run_list m bs [] = bs
run_list m bs (o ∷ os) = run_list m (step_list m bs o) os

-- The source of an `append` is held and apart from the buffer, and the sizes stay below 2^64. A new
-- size is not above the old one: the bytes of a longer buffer would be those that its memory has.
abbrev pub IsCallable : World → Buffer → ℕ → Op → Type 0
IsCallable w b n (appends d s) =
    IsHeld w.pool d s × Apart d s b.data_ b.capacity_ × (n + s < 2 ^ 64)
IsCallable w b n (resizes k) = k ≤ n
IsCallable w b n o = Unit

abbrev pub AreCallable : World → Buffer → List ℕ → List Op → Type 0
AreCallable w b bs [] = Unit
AreCallable w b bs (o ∷ os) =
    IsCallable w b (length bs) o × AreCallable w b (step_list w.mem bs o) os

set_capacity-enough :
    (w : World) (b : Buffer) (n : ℕ) → leb n b.capacity_ ≡ true → set_capacity w b n ≡ (false, w, b)
unfolding set_capacity
set_capacity-enough w b n e = ground arith

-- What each call keeps, and the bytes that it leaves.
record Steps (w : World) (b : Buffer) (o : Op) (r : World × Buffer) : Type 0 where
  frame : Frame w b r.0 r.1
  bytes : str r.0 r.1 ≡ step_list w.mem (str w b) o

pub size-length : (w : World) (b : Buffer) → length (str w b) ≡ b.size_
unfolding str
size-length w b = length-read w.mem b.data_ b.size_

read-take : (m : Memory) (p n k : ℕ) → n ≤ k → read m p n ≡ take n (read m p k)
unfolding read
read-take m p zero k h = refl
read-take m p (suc n) zero h = absurd (omega arith)
read-take m p (suc n) (suc k) h = ap (◌∷◌ (m p)) (read-take m (suc p) n k (omega arith))

-- A buffer that is cut to its first bytes.
cut :
    (w : World) (b : Buffer) (n : ℕ)
    → IsWell w.pool
    → IsValid w b
    → n ≤ b.size_
    → Steps w b (resizes n) (w, record b { size_ = n })
unfolding str
cut w b n v u h = record {
  frame = record {
    well = v;
    valid = record { within = omega (arith, u.within, h); held = u.held; fits = u.fits };
    mode = refl;
    others = λ q k held apart. (held, apart, refl);
  };
  bytes = read-take w.mem b.data_ n b.size_ h;
}

set_size-cut :
    (w : World) (b : Buffer) (n : ℕ)
    → IsValid w b
    → n ≤ b.size_
    → set_size w b n ≡ (false, w, record b { size_ = n })
unfolding set_size
set_size-cut w b n u h = ground (arith, u.within)

step-Steps :
    (w : World) (b : Buffer) (o : Op)
    → IsWell w.pool
    → IsValid w b
    → IsCallable w b (length (str w b)) o
    → Steps w b o (step (w, b) o)
unfolding step
step-Steps w b (appends d s) v u (h, a, fits) =
    let r = append-Appended w b d s v u h a (omega (arith, size-length w b)) in
    record { frame = r.frame; bytes = r.appended }
step-Steps w b (flushes n) v u c =
    let r = flush-Flushed w b n v u in rw r.done (record { frame = r.frame; bytes = r.rest })
step-Steps w b (fills x) v u c =
    let (frame, bytes) = fill-str w b x v u in
    record { frame = frame; bytes = bytes ∙ ap (λ n. replicate n x) (sym (size-length w b)) }
step-Steps w b clears v u c = record {
  frame = cleared-Frame w b v u;
  bytes = unfold str clear in read-zero w.mem b.data_;
}
step-Steps w b (reserves n) v u c = elim (Bool-cases (leb n b.capacity_)) [
  | inl enough ↦ rw (set_capacity-enough w b n enough) (record {
    frame = record { well = v; valid = u; mode = refl; others = λ q k h a. (h, a, refl) };
    bytes = refl;
  })
  | inr small ↦
      let (done, g) = set_capacity-Grown w b n v u (ground arith) in
      record { frame = g.frame; bytes = g.bytes }
]
step-Steps w b (resizes n) v u c =
    let h : n ≤ b.size_ = omega (arith, c, size-length w b) in
    rw (set_size-cut w b n u h) (cut w b n v u h)

-- A framed step changes neither what the later calls may read nor what they read.
carry :
    (w : World) (b : Buffer) (w' : World) (b' : Buffer) (bs : List ℕ) (os : List Op)
    → Frame w b w' b'
    → AreCallable w b bs os
    → AreCallable w' b' bs os × (run_list w'.mem bs os ≡ run_list w.mem bs os)
unfolding run_list
carry w b w' b' bs [] f c = (tt, refl)
carry w b w' b' bs (appends d s ∷ os) f ((h, a, fits), c) =
    let (h', a', e) = f.others d s h a in
    let (c', r) = carry w b w' b' (bs ++ read w.mem d s) os f c in
    (((h', a', fits), rw e c'), rw e r)
carry w b w' b' bs (flushes n ∷ os) f (_, c) =
    let (c', r) = carry w b w' b' (step_list w.mem bs (flushes n)) os f c in ((tt, c'), r)
carry w b w' b' bs (fills x ∷ os) f (_, c) =
    let (c', r) = carry w b w' b' (step_list w.mem bs (fills x)) os f c in ((tt, c'), r)
carry w b w' b' bs (clears ∷ os) f (_, c) = let (c', r) = carry w b w' b' [] os f c in ((tt, c'), r)
carry w b w' b' bs (reserves n ∷ os) f (_, c) =
    let (c', r) = carry w b w' b' bs os f c in ((tt, c'), r)
carry w b w' b' bs (resizes n ∷ os) f (k, c) =
    let (c', r) = carry w b w' b' (take n bs) os f c in ((k, c'), r)

-- On a well-formed pool, any sequence of appends, flushes, fills, clears, reservations of
-- capacity and cuts to a smaller size on a valid buffer, each callable on the bytes that it meets, leaves the list of
-- bytes that the list model predicts, and the pool and the buffer stay well-formed: growing and
-- moving to other memory change nothing that a client sees.
pub run-refines :
    (w : World) (b : Buffer) (os : List Op)
    → IsWell w.pool
    → IsValid w b
    → AreCallable w b (str w b) os
    → let (w', b') = run (w, b) os in
      IsWell w'.pool × IsValid w' b' × (str w' b' ≡ run_list w.mem (str w b) os)
unfolding run run_list
run-refines w b [] v u c = (v, u, refl)
run-refines w b (o ∷ os) v u (c, cs) =
    let r = step-Steps w b o v u c in
    let w' = (step (w, b) o).0 in
    let b' = (step (w, b) o).1 in
    let (cs', e) = carry w b w' b' (step_list w.mem (str w b) o) os r.frame cs in
    let (v', u', done) =
      run-refines w' b' os r.frame.well r.frame.valid
        (subst (λ bs. AreCallable w' b' bs os) (sym r.bytes) cs') in
    (v', u', done ∙ ap (λ bs. run_list w'.mem bs os) r.bytes ∙ e)
