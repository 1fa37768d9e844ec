-- ===== src/Buffer/Growth.antt =====
-- `capacity(size_type)`, `size(size_type)` and `append`.

-- The call of `capacity(size_type)` that exchanges the memory.
use socle.Prelude.{
  ℕ, ◌≤◌, ◌<◌, ◌≡◌, refl, sym, ap, ◌∙◌, subst, inl, inr, Bool, true, false, not, arith, ltb, ◌==◌,
  if◌then◌else◌, ltb→lt, Bool-cases,
}
use socle.Buffer.{dealloc, set_capacity, str}
use socle.Buffer.Frame.{IsValid, Frame, IsFresh, fresh_memory-IsFresh}
use socle.Buffer.Giving.{dealloc-GivesBack}
use socle.Buffer.State.{Buffer, World, fresh_memory}
use socle.MemPool.{find_ptr_size}
use socle.MemPool.Places.{IsWell}
use socle.MemPool.Ranges.{IsHeld}
use socle.Memory.{read, memcpy, Apart}
use socle.Memory.Ranges.{read-memcpy, read-memcpy-Apart}

unfoldable exchange : World → Buffer → ℕ × ℕ × World → World × Buffer
exchange w b (d, cd, w₁) =
    let w₂ =
      if not (b.size_ == 0) then record w₁ { mem = memcpy w₁.mem d b.data_ b.size_ } else w₁ in
    (dealloc w₂ b, record b { data_ = d; capacity_ = cd; free_ = true })

set_capacity-eq :
    (w : World) (b : Buffer) (c : ℕ)
    → b.capacity_ < c
    → set_capacity w b c ≡ (let r = exchange w b (fresh_memory w c) in (true, r.0, r.1))
unfolding set_capacity exchange
set_capacity-eq w b c lt = ground arith

-- Copying the old bytes into new memory, before the old memory is given back.
record IsMoved (w : World) (b : Buffer) (d cd : ℕ) (w₁ w₂ : World) : Type 0 where
  pool : w₂.pool ≡ w₁.pool
  mode : w₂.use_pool ≡ w₁.use_pool
  copied : read w₂.mem d b.size_ ≡ read w.mem b.data_ b.size_
  others : (q k : ℕ) → Apart q k d cd → read w₂.mem q k ≡ read w.mem q k

copy-IsMoved :
    (w : World) (b : Buffer) (n d cd : ℕ) (w₁ : World)
    → b.size_ ≤ cd
    → IsFresh w n d cd w₁
    → IsMoved w b d cd w₁
        (if not (b.size_ == 0) then record w₁ { mem = memcpy w₁.mem d b.data_ b.size_ } else w₁)
copy-IsMoved w b n d cd w₁ le f = go (b.size_ == 0) refl
  where
    go :
        (e : Bool)
        → (b.size_ == 0) ≡ e
        → IsMoved w b d cd w₁
            (if not e then record w₁ { mem = memcpy w₁.mem d b.data_ b.size_ } else w₁)
    go true e =
        let z : b.size_ ≡ 0 = ground arith in
        record {
          pool = refl;
          mode = refl;
          copied = rw z (unfold read in refl);
          others = λ q k a. ap (λ m. read m q k) f.bytes;
        }
    go false e = record {
      pool = refl;
      mode = refl;
      copied = read-memcpy w₁.mem d b.data_ b.size_ ∙ ap (λ m. read m b.data_ b.size_) f.bytes;
      others = λ q k a.
          read-memcpy-Apart w₁.mem d b.data_ b.size_ q k (omega arith)
          ∙ ap (λ m. read m q k) f.bytes;
    }

-- What a growing step promises: the frame, the bytes of the buffer, and the capacity.
pub record Grown (w : World) (b : Buffer) (n : ℕ) (w' : World) (b' : Buffer) : Type 0 where
  pub frame : Frame w b w' b'
  pub bytes : str w' b' ≡ str w b
  pub size : b'.size_ ≡ b.size_
  pub enough : n ≤ b'.capacity_

moved-Grown :
    (w : World) (b : Buffer) (n d cd : ℕ) (w₁ w₂ : World)
    → IsValid w b
    → b.size_ ≤ n
    → IsFresh w n d cd w₁
    → IsMoved w b d cd w₁ w₂
    → Grown w b n (dealloc w₂ b) (record b { data_ = d; capacity_ = cd; free_ = true })
unfolding str
moved-Grown w b n d cd w₁ w₂ u le f m =
    let (held, apart) = f.others b.data_ b.capacity_ u.held in
    let well : IsWell w₂.pool = subst IsWell (sym m.pool) f.well in
    let valid : IsValid w₂ b = record {
      within = u.within;
      held = subst (λ p. IsHeld p b.data_ b.capacity_) (sym m.pool) held;
      fits = ground (arith, u.fits, f.same b.data_, ap (λ p. find_ptr_size p b.data_) m.pool);
    } in
    let g = dealloc-GivesBack w₂ b well valid in
    let there : (q k : ℕ) → IsHeld w₁.pool q k → IsHeld w₂.pool q k =
      λ q k h. subst (λ p. IsHeld p q k) (sym m.pool) h in
    record {
      frame = record {
        well = g.well;
        valid = record {
          within = omega (arith, f.enough);
          held = g.others d cd (there d cd f.held) (omega (arith, apart));
          fits = inr (inr (ground (arith, f.fits, g.same d, ap (λ p. find_ptr_size p d) m.pool)));
        };
        mode = g.mode ∙ m.mode ∙ f.mode;
        others = λ q k h a.
            let (h₁, a₁) = f.others q k h in
            (g.others q k (there q k h₁) a, a₁, ap (λ x. read x q k) g.bytes ∙ m.others q k a₁);
      };
      bytes = ap (λ x. read x d b.size_) g.bytes ∙ m.copied;
      size = refl;
      enough = f.enough;
    }

-- On a well-formed pool, `capacity(size_type)` of a valid buffer to more than its capacity
-- succeeds, and the buffer keeps its bytes and has the new capacity at least. The pool and the
-- buffer stay well-formed, and what others hold keeps its bytes.
pub set_capacity-Grown :
    (w : World) (b : Buffer) (c : ℕ)
    → IsWell w.pool
    → IsValid w b
    → b.capacity_ < c
    → let (r, w', b') = set_capacity w b c in (r ≡ true) × Grown w b c w' b'
unfolding exchange
set_capacity-Grown w b c v u lt =
    let f = fresh_memory-IsFresh w c v (omega arith) in
    let le = u.within in
    let m =
      copy-IsMoved w b c (fresh_memory w c).0 (fresh_memory w c).1 (fresh_memory w c).2
        (omega (arith, f.enough)) f in
    rw (set_capacity-eq w b c lt) (refl, moved-Grown w b c _ _ _ _ u (omega arith) f m)

-- The growth step of `append` and `size(size_type)`, made only if the capacity is too small.
abbrev pub reserve : World → Buffer → ℕ → Bool × World × Buffer
reserve w b n = if ltb b.capacity_ n then set_capacity w b n else (false, w, b)

pub reserve-Grown :
    (w : World) (b : Buffer) (n : ℕ)
    → IsWell w.pool
    → IsValid w b
    → Grown w b n (reserve w b n).1 (reserve w b n).2
reserve-Grown w b n v u = elim (Bool-cases (ltb b.capacity_ n)) [
  | inl small ↦ rw small (set_capacity-Grown w b n v u (ltb→lt _ _ small)).1
  | inr fits ↦ rw fits (record {
    frame = record { well = v; valid = u; mode = refl; others = λ q k h a. (h, a, refl) };
    bytes = refl;
    size = refl;
    enough = ground arith;
  })
]
