-- ===== src/Buffer/Append.antt =====
-- `append`, in its forms.
use mathlib.Core.List.{append-nil}
use mathlib.Core.Path.{ap₂}
use native.Mathlib.Nat.{mod-eq_of_lt}
use socle.Prelude.{
  ℕ, zero, suc, ◌+◌, ◌^◌, ◌<◌, ◌≡◌, refl, sym, ap, ◌∙◌, subst, true, not, List, ◌++◌, arith, ◌==◌,
  add_u64,
}
use socle.Buffer.{append, append_buffer, str}
use socle.Buffer.Frame.{IsValid, Frame}
use socle.Buffer.Growth.{Grown, reserve, reserve-Grown}
use socle.Buffer.State.{Buffer, World}
use socle.MemPool.Places.{IsWell}
use socle.MemPool.Ranges.{IsHeld}
use socle.Memory.{read, memcpy, Apart}
use socle.Memory.Ranges.{read-add, read-memcpy, read-memcpy-Apart}

append-eq :
    (w : World) (b : Buffer) (d s : ℕ)
    → 0 < s
    → b.size_ + s < 2 ^ 64
    → append w b d s ≡ (
        let r = reserve w b (b.size_ + s) in
        (
          record r.1 { mem = memcpy r.1.mem (r.2.data_ + r.2.size_) d s },
          record r.2 { size_ = b.size_ + s },
        ))
unfolding append
append-eq w b d s nz fits =
    let e : add_u64 b.size_ s ≡ b.size_ + s = mod-eq_of_lt fits in rw (e, some_bytes s nz) refl
  where
    some_bytes : (s : ℕ) → 0 < s → not (s == 0) ≡ true
    some_bytes s nz = ground arith

-- What `append` promises: the bytes come after those of the buffer.
pub record Appended (w : World) (b : Buffer) (bs : List ℕ) (w' : World) (b' : Buffer) : Type 0 where
  pub frame : Frame w b w' b'
  pub appended : str w' b' ≡ str w b ++ bs

-- Writing `s` bytes behind the buffer's own, where they fit.
written-Appended :
    (w : World) (b : Buffer) (d s : ℕ) (w₁ : World) (b₁ : Buffer)
    → IsHeld w.pool d s
    → Apart d s b.data_ b.capacity_
    → Grown w b (b.size_ + s) w₁ b₁
    → Appended w b
        (read w.mem d s)
        (record w₁ { mem = memcpy w₁.mem (b₁.data_ + b₁.size_) d s })
        (record b₁ { size_ = b.size_ + s })
unfolding str
written-Appended w b d s w₁ b₁ h a g =
    let (h₁, a₁, source) = g.frame.others d s h a in
    let within = g.frame.valid.within in
    let enough = g.enough in
    let size = g.size in
    record {
      frame = record {
        well = g.frame.well;
        valid = record { within = enough; held = g.frame.valid.held; fits = g.frame.valid.fits };
        mode = g.frame.mode;
        others = λ q k hq aq.
            let (h₂, a₂, e₂) = g.frame.others q k hq aq in
            (h₂, a₂, read-memcpy-Apart w₁.mem (b₁.data_ + b₁.size_) d s q k (omega arith) ∙ e₂);
      };
      appended =
          read-add _ b₁.data_ b.size_ s
          ∙ ap₂ ◌++◌
              (read-memcpy-Apart w₁.mem (b₁.data_ + b₁.size_) d s b₁.data_ b.size_ (omega arith)
                ∙ ap (read w₁.mem b₁.data_) (sym size)
                ∙ g.bytes)
              (subst
                  (λ (n : ℕ).
                    read (memcpy w₁.mem (b₁.data_ + n) d s) (b₁.data_ + b.size_) s
                    ≡ read w₁.mem d s)
                  (sym size) (read-memcpy w₁.mem (b₁.data_ + b.size_) d s)
                ∙ source);
    }

nothing-Appended :
    (w : World) (b : Buffer) (d : ℕ)
    → IsWell w.pool
    → IsValid w b
    → let (w', b') = append w b d 0 in Appended w b (read w.mem d 0) w' b'
unfolding append read
nothing-Appended w b d v u = record {
  frame = record { well = v; valid = u; mode = refl; others = λ q k h a. (h, a, refl) };
  appended = sym (append-nil (str w b));
}

-- For bytes that are held by somebody and apart from a valid buffer, and a sum of the sizes that
-- does not wrap, `append` puts the bytes behind those of the buffer and grows it if they do not
-- fit. The pool and the buffer stay well-formed, and what others hold keeps its bytes.
pub append-Appended :
    (w : World) (b : Buffer) (d s : ℕ)
    → IsWell w.pool
    → IsValid w b
    → IsHeld w.pool d s
    → Apart d s b.data_ b.capacity_
    → b.size_ + s < 2 ^ 64
    → let (w', b') = append w b d s in Appended w b (read w.mem d s) w' b'
append-Appended w b d zero v u h a fits = nothing-Appended w b d v u
append-Appended w b d (suc s) v u h a fits =
    rw (append-eq w b d (suc s) (omega arith) fits)
      (written-Appended w b d (suc s) _ _ h a (reserve-Grown w b (b.size_ + suc s) v u))

-- `append(const buffer&)` of a buffer that is apart from this one puts its bytes behind.
pub append_buffer-Appended :
    (w : World) (b x : Buffer)
    → IsWell w.pool
    → IsValid w b
    → IsHeld w.pool x.data_ x.size_
    → Apart x.data_ x.size_ b.data_ b.capacity_
    → b.size_ + x.size_ < 2 ^ 64
    → let (w', b') = append_buffer w b x in Appended w b (str w x) w' b'
unfolding append_buffer str
append_buffer-Appended w b x v u h a fits = append-Appended w b x.data_ x.size_ v u h a fits
