-- ===== src/Proxy/Adjusted.antt =====
-- How a write of a context comes to the last step, which adjusts the bottleneck.
use socle.Prelude.{
  ℕ, zero, suc, ◌<◌, ◌≡◌, refl, sym, ap, ◌∙◌, subst, Bool, true, false, not, ◌&&◌, ◌||◌, arith, ltb,
  if◌then◌else◌, ==_iff, same, ℤ, pos, negsuc, is_zero,
}
use socle.HostCx.{HostCx, size}
use socle.HostCx.Io.{read, write_waiting_for_peercom}
use socle.HostCx.Out.{write}
use socle.HostCx.Runs.{read-writebuf}
use socle.Proxy.{CxSide, Context, Outside, BaseProxy, at, live, put_context, set_context, set_cx}
use socle.Proxy.Handlers.{after_red, handle_cx_read, after_wrt, handle_cx_write}
use socle.Proxy.Pauses.{SameSides, SameSides-trans, SameSides-refl}
use socle.Proxy.Writes.{
  start_neck, stop_neck, adjust_neck, failed_once, write_part, handle_cx_write_once,
}

at-set_cx : (i : ℕ) (c : Context) (p : BaseProxy) → at (set_context i c p) i ≡ c.cx
unfolding put_context
at-set_cx i c p = ap (λ b. (if b then c else p.contexts i).cx) ((==_iff i i).1 refl)

-- A successful read leaves the sides and the write buffer of the context.
abbrev IsRead : BaseProxy → ℕ → Bool × BaseProxy → Type 0
IsRead p i r = SameSides p r.1 × ((at r.1 i).writebuf_ ≡ (at p i).writebuf_)

module _ (w : Outside) where
  after_red-IsRead :
      (side : CxSide) (i : ℕ) (red : ℤ) (p : BaseProxy)
      → (after_red w side i red p).0 ≡ true
      → IsRead p i (after_red w side i red p)
  unfolding after_red
  after_red-IsRead side i (pos zero) p ok = absurd (ground (arith, ok))
  after_red-IsRead side i (pos (suc n)) p ok = (SameSides-refl p, refl)
  after_red-IsRead side i (negsuc n) p ok = (SameSides-refl p, refl)

  handle_cx_read-IsRead :
      (side : CxSide) (i : ℕ) (p : BaseProxy)
      → (handle_cx_read w side i p).0 ≡ true
      → IsRead p i (handle_cx_read w side i p)
  unfolding handle_cx_read
  handle_cx_read-IsRead side i p₀ =
      let c = p₀.contexts i in
      let p = set_context i (record c { forced_read_on_write_ = false }) p₀ in
      let a = w.answers i in
      let (red, h) = read w.room w.process_in a.io_read w.now (live w p i) in
      let p' = set_cx i h p in
      let done = after_red w side i red p' in
      let skipped : Bool × BaseProxy = (true, p) in
      let here = at-set_cx i (record c { forced_read_on_write_ = false }) p₀ in
      let there = at-set_cx i (record (p.contexts i) { cx = h }) p in
      let kept = read-writebuf w.room w.process_in a.io_read w.now (live w p i) in
      elim (a.can_read || c.forced_read_on_write_)
        as (λ b.
          (if b then done else skipped).0 ≡ true → IsRead p₀ i (if b then done else skipped)) [
            | true ↦ λ ok.
                let (sides, same) = after_red-IsRead side i red p' ok in
                (sides, same ∙ ap (λ x. x.writebuf_) there ∙ kept ∙ ap (λ x. x.writebuf_) here)
            | false ↦ λ ok. (SameSides-refl p, ap (λ x. x.writebuf_) here)
          ]

  after_wrt-SameSides :
      (side : CxSide) (i : ℕ) (wrt : ℤ) (p : BaseProxy)
      → (after_wrt w side i wrt p).0 ≡ true
      → SameSides p (after_wrt w side i wrt p).1
  unfolding after_wrt
  after_wrt-SameSides side i (pos n) p ok = SameSides-refl p
  after_wrt-SameSides side i (negsuc n) p ok = absurd (ground (arith, ok))

  handle_cx_write-SameSides :
      (side : CxSide) (i : ℕ) (p : BaseProxy)
      → (handle_cx_write w side i p).0 ≡ true
      → SameSides p (handle_cx_write w side i p).1
  unfolding handle_cx_write
  handle_cx_write-SameSides side i p₀ =
      let c = p₀.contexts i in
      let p = set_context i (record c { forced_write_on_read_ = false }) p₀ in
      let (wrt, h) = write w.process_out (w.answers i).io_write w.now (live w p i) in
      let p' = set_cx i h p in
      let done = after_wrt w side i wrt p' in
      let skipped : Bool × BaseProxy = (true, p) in
      elim ((w.answers i).can_write || c.forced_write_on_read_)
        as (λ b.
          (if b then done else skipped).0 ≡ true → SameSides p₀ (if b then done else skipped).1) [
            | true ↦ λ ok. after_wrt-SameSides side i wrt p' ok
            | false ↦ λ ok. SameSides-refl p
          ]

write_waiting-writebuf : (h : HostCx) → (write_waiting_for_peercom h).1.writebuf_ ≡ h.writebuf_
unfolding write_waiting_for_peercom
write_waiting-writebuf h = ground arith

-- The last step of a write of a context with bytes, from a state with the same sides.
abbrev pub IsAdjusted : CxSide → ℕ → BaseProxy → BaseProxy → Type 0
IsAdjusted side i p q =
    (p' : BaseProxy) × SameSides p p'
    × (q ≡ (if ltb 0 (size (at p' i).writebuf_) then start_neck side i p' else stop_neck side p'))

module _ (w : Outside) where
  -- What `write_part` does after the write, with the result of the read.
  abbrev after_write : CxSide → ℕ → ℕ → ℕ → Bool × BaseProxy → Bool × BaseProxy
  after_write side i orig pending r =
      if not r.0 then failed_once w side i r.1 else (true, adjust_neck side i orig pending r.1)

  after_write-IsAdjusted :
      (side : CxSide) (i orig : ℕ) (p p₁ : BaseProxy) (r : Bool × BaseProxy)
      → 0 < orig
      → (r.0 ≡ true → SameSides p r.1 × ((at r.1 i).writebuf_ ≡ (at p₁ i).writebuf_))
      → let q = after_write side i orig (size (at p₁ i).writebuf_) r in
        q.0 ≡ true → IsAdjusted side i p q.1
  unfolding adjust_neck
  after_write-IsAdjusted side i orig p p₁ r has_bytes is_read =
      let pending = size (at p₁ i).writebuf_ in
      let done : Bool × BaseProxy = (true, adjust_neck side i orig pending r.1) in
      let failed = failed_once w side i r.1 in
      let flag : ltb 0 orig ≡ true = ground (arith, has_bytes) in
      let adjusted = λ (n : ℕ). if ltb 0 n then start_neck side i r.1 else stop_neck side r.1 in
      let case : (b : Bool)
          → (r.0 ≡ b)
          → (if not b then failed else done).0 ≡ true
          → IsAdjusted side i p (if not b then failed else done).1 =
        λ b.
          elim b
            as (λ b.
              (r.0 ≡ b)
              → (if not b then failed else done).0 ≡ true
              → IsAdjusted side i p (if not b then failed else done).1) [
                | true ↦ λ e ok.
                    let (sides, buffer) = is_read e in
                    (
                      r.1,
                      sides,
                      ap (λ b. if b then adjusted pending else r.1) flag
                          ∙ ap (λ b. adjusted (size b)) (sym buffer),
                    )
                | false ↦ λ e ok. absurd (ground (arith, ok))
              ] in
      case r.0 refl

  write_part-IsAdjusted :
      (side : CxSide) (i : ℕ) (p : BaseProxy)
      → 0 < size (at p i).writebuf_
      → (write_part w side i p).0 ≡ true
      → IsAdjusted side i p (write_part w side i p).1
  unfolding write_part adjust_neck
  write_part-IsAdjusted side i p has_bytes =
      let orig = size (at p i).writebuf_ in
      let (ok, p₁) = handle_cx_write w side i p in
      let pending = size (at p₁ i).writebuf_ in
      let forced = (p₁.contexts i).forced_read_on_write_ in
      let red = handle_cx_read w side i p₁ in
      let unread : Bool × BaseProxy = (true, p₁) in
      let failed = failed_once w side i p₁ in
      let rest = λ (b : Bool). after_write side i orig pending (if b then red else unread) in
      let case : (b c : Bool)
          → (ok ≡ b)
          → (if not b then failed else rest c).0 ≡ true
          → IsAdjusted side i p (if not b then failed else rest c).1 =
        λ b c.
          elim b
            as (λ b.
              (ok ≡ b)
              → (if not b then failed else rest c).0 ≡ true
              → IsAdjusted side i p (if not b then failed else rest c).1) [
                | true ↦ λ e.
                    let sides = handle_cx_write-SameSides w side i p e in
                    elim c as (λ c. (rest c).0 ≡ true → IsAdjusted side i p (rest c).1) [
                      | true ↦ after_write-IsAdjusted side i orig p p₁ red has_bytes (λ read_ok.
                          let (sides', buffer) = handle_cx_read-IsRead w side i p₁ read_ok in
                          (SameSides-trans p p₁ red.1 sides sides', buffer))
                      | false ↦
                          after_write-IsAdjusted side i orig p p₁ unread has_bytes
                            (λ h. (sides, refl))
                    ]
                | false ↦ λ e ok'. absurd (ground (arith, ok'))
              ] in
      case ok forced refl

  pub write_once-IsAdjusted :
      (side : CxSide) (i : ℕ) (p : BaseProxy)
      → is_zero (at p i).fds_ ≡ false
      → (write_waiting_for_peercom (live w p i)).0 ≡ false
      → 0 < size (at p i).writebuf_
      → (handle_cx_write_once w side i p).0 ≡ true
      → IsAdjusted side i p (handle_cx_write_once w side i p).1
  unfolding handle_cx_write_once
  write_once-IsAdjusted side i p opened free has_bytes =
      let h = (write_waiting_for_peercom (live w p i)).1 in
      let p₁ = set_cx i h p in
      let c = p₁.contexts i in
      let c' = record c { forced_write_ = c.forced_write_ && c.forced_write_always_ } in
      let p₂ = set_context i c' p₁ in
      let buffer : (at p₂ i).writebuf_ ≡ (at p i).writebuf_ =
        ap (λ x. x.writebuf_) (at-set_cx i c' p₁)
        ∙ ap (λ x. x.writebuf_) (at-set_cx i (record (p.contexts i) { cx = h }) p)
        ∙ write_waiting-writebuf (live w p i) in
      let has_bytes' : 0 < size (at p₂ i).writebuf_ =
        subst (λ b. 0 < size b) (sym buffer) has_bytes in
      let guard : ((w.answers i).writeset || c.forced_write_ || ltb 0 (size (at p₂ i).writebuf_))
          ≡ true =
        ground (arith, has_bytes') in
      let unwritten : Bool × BaseProxy = (true, p₂) in
      let e : handle_cx_write_once w side i p ≡ write_part w side i p₂ =
        rw (opened, free) (ap (λ b. if b then write_part w side i p₂ else unwritten) guard) in
      subst (λ r. r.0 ≡ true → IsAdjusted side i p r.1) (sym e)
        (write_part-IsAdjusted side i p₂ has_bytes')
