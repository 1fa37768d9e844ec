-- ===== src/Buffer/Content.antt =====
-- The methods that read or change the bytes in place.
use native.Mathlib.Nat.{mod-eq_of_lt}
use socle.Prelude.{
  ℕ, zero, suc, ◌+◌, ◌-◌, ◌^◌, ◌≤◌, ◌<◌, ◌≡◌, refl, sym, ◌∙◌, inl, inr, false, none, some, List, [],
  arith, leb, ◌==◌, if◌then◌else◌, Bool-cases, get_elem?, take, drop, drop_all, add_u64,
}
use socle.Buffer.{out_of_range, Throws, returns, throws, clear, at_index, copy_from, flush, str}
use socle.Buffer.Frame.{IsValid, Frame}
use socle.Buffer.State.{Buffer, World}
use socle.MemPool.Places.{IsWell}
use socle.Memory.{read, memcpy}
use socle.Memory.Ranges.{
  read-zero, length-read, read-memcpy, read-memcpy-Apart, take-read, drop-read, get_elem?-read,
}

-- `at` reads the byte at the index, and throws exactly where there is none.
pub at_index-get_elem? :
    (w : World) (b : Buffer) (i : ℕ)
    → at_index w b i
      ≡ elim (get_elem? (str w b) i) [ none ↦ throws out_of_range | some x ↦ returns x ]
unfolding at_index str
at_index-get_elem? w b i = ground (arith, get_elem?-read w.mem b.data_ b.size_ i)

-- `copy_from` (and `get_at`) returns the `sz` bytes from `start` on, and throws exactly where they
-- would go past the end: the end does not wrap.
pub copy_from-eq :
    (w : World) (b : Buffer) (sz start : ℕ)
    → start + sz < 2 ^ 64
    → copy_from w b sz start ≡ (
        if leb (start + sz) b.size_
        then returns (take sz (drop start (str w b)))
        else throws out_of_range)
unfolding copy_from str
copy_from-eq w b sz start fits =
    let e : add_u64 start sz ≡ start + sz = mod-eq_of_lt fits in
    ground (
      arith,
      e,
      drop-read w.mem b.data_ start b.size_,
      take-read w.mem (b.data_ + start) sz (b.size_ - start),
    )

-- What `flush` leaves of a valid buffer.
pub record Flushed (w : World) (b : Buffer) (n : ℕ) (r : Throws (World × Buffer)) : Type 0 where
  pub w' : World
  pub b' : Buffer
  pub done : r ≡ returns (w', b')
  pub frame : Frame w b w' b'
  pub rest : str w' b' ≡ (if n == 0 then [] else drop n (str w b))

pub cleared-Frame : (w : World) (b : Buffer) → IsWell w.pool → IsValid w b → Frame w b w (clear b)
unfolding clear
cleared-Frame w b v u = record {
  well = v;
  valid = record { within = omega arith; held = u.held; fits = u.fits };
  mode = refl;
  others = λ q k h a. (h, a, refl);
}

kept-Frame :
    (w : World) (b : Buffer) (n : ℕ)
    → IsWell w.pool
    → IsValid w b
    → n ≤ b.size_
    → Frame w b
        (record w { mem = memcpy w.mem b.data_ (b.data_ + n) (b.size_ - n) })
        (record b { size_ = b.size_ - n })
kept-Frame w b n v u le =
    let within = u.within in
    record {
      well = v;
      valid = record { within = omega arith; held = u.held; fits = u.fits };
      mode = refl;
      others = λ q k h a.
          (h, a, read-memcpy-Apart w.mem b.data_ (b.data_ + n) (b.size_ - n) q k (omega arith));
    }

-- On a well-formed pool, `flush(n)` of a valid buffer drops the first `n` bytes, or all bytes if
-- `n` is 0 or at least the size, does not throw, and touches nothing that others hold.
pub flush-Flushed :
    (w : World) (b : Buffer) (n : ℕ) → IsWell w.pool → IsValid w b → Flushed w b n (flush w b n)
unfolding flush str
flush-Flushed w b zero v u = record {
  w' = w;
  b' = clear b;
  done = refl;
  frame = cleared-Frame w b v u;
  rest = unfold clear in read-zero w.mem b.data_;
}
flush-Flushed w b (suc n) v u = elim (Bool-cases (leb b.size_ (suc n))) [
  | inl all ↦ record {
    w' = w;
    b' = clear b;
    done = ground arith;
    frame = cleared-Frame w b v u;
    rest =
        unfold clear in
        rw nonzero (
          read-zero w.mem b.data_
          ∙ sym (drop_all (suc n) bytes (ground (arith, length-read w.mem b.data_ b.size_))));
  }
  | inr part ↦ record {
    w' = _;
    b' = _;
    done = ground arith;
    frame = kept-Frame w b (suc n) v u (ground arith);
    rest = rw nonzero (
        read-memcpy w.mem b.data_ (b.data_ + suc n) (b.size_ - suc n)
        ∙ sym (drop-read w.mem b.data_ (suc n) b.size_ (ground arith)));
  }
]
  where
    nonzero : (suc n == 0) ≡ false
    nonzero = ground arith

    bytes : List ℕ
    bytes = read w.mem b.data_ b.size_
