-- ===== src/Proxy/Others.antt =====
-- The events, a read and a write of one context leave the bytes that wait in another one.
use socle.Prelude.{
  ℕ, zero, suc, ◌≡◌, refl, ap, ◌∙◌, inl, inr, Bool, true, false, ◌||◌, ◌==◌, if◌then◌else◌,
  Bool-cases, ℤ, pos, negsuc,
}
use socle.HostCx.{HostCx, opening_timeout, idle_timeout, shutdown, reconnect}
use socle.HostCx.Io.{read}
use socle.HostCx.Out.{write}
use socle.Proxy.{
  CxSide, left, right, left_pc, right_pc, Context, Outside, on_error, on_message, BaseProxy, tell,
  at, live, has_error, put_context, set_context, set_cx, shutdown_cx, is_left, reconnect_cx,
  error_hook,
}
use socle.Proxy.Handlers.{
  with_hook, failed_cx, handle_cx_events, after_red, handle_cx_read, after_wrt, handle_cx_write,
}

-- The same bytes wait in the context `j`.
abbrev pub SameBytes : ℕ → BaseProxy → BaseProxy → Type 0
SameBytes j p q = (at q j).writebuf_ ≡ (at p j).writebuf_

-- the same, of both branches of a test
pub if-SameBytes :
    (b : Bool) (j : ℕ) (p : BaseProxy) (q r : Bool × BaseProxy)
    → SameBytes j p q.1
    → SameBytes j p r.1
    → SameBytes j p (if b then q else r).1
if-SameBytes true j p q r x y = x
if-SameBytes false j p q r x y = y

module _ (w : Outside) (i j : ℕ) (other : (j == i) ≡ false) where
  pub set_context-SameBytes : (c : Context) (p : BaseProxy) → SameBytes j p (set_context i c p)
  unfolding put_context
  set_context-SameBytes c p = ap (λ b. (if b then c else p.contexts j).cx.writebuf_) other

  pub set_cx-SameBytes : (h : HostCx) (p : BaseProxy) → SameBytes j p (set_cx i h p)
  set_cx-SameBytes h p = set_context-SameBytes (record (p.contexts i) { cx = h }) p

  reconnect_cx-SameBytes : (p : BaseProxy) → SameBytes j p (reconnect_cx w i p)
  reconnect_cx-SameBytes p =
      set_cx-SameBytes (reconnect (w.answers i).connect_fd w.blocking w.now (at p i)).1 p

  error_hook-SameBytes : (side : CxSide) (p : BaseProxy) → SameBytes j p (error_hook w side i p)
  unfolding error_hook
  error_hook-SameBytes left p = refl
  error_hook-SameBytes right p = refl
  error_hook-SameBytes left_pc p =
      let p' = tell (on_error left_pc i) p in
      let change = reconnect_cx-SameBytes p' in
      elim (at p' i).opening_ as (λ b. SameBytes j p (if b then p' else reconnect_cx w i p')) [
        | true ↦ refl
        | false ↦ change
      ]
  error_hook-SameBytes right_pc p = reconnect_cx-SameBytes (tell (on_error right_pc i) p)

  failed_cx-SameBytes : (side : CxSide) (p : BaseProxy) → SameBytes j p (failed_cx w side i p).1
  failed_cx-SameBytes side p =
      let q = error_hook w side i p in
      set_cx-SameBytes (shutdown (at q i)) q ∙ error_hook-SameBytes side p

  pub handle_cx_events-SameBytes :
      (side : CxSide) (p : BaseProxy) → SameBytes j p (handle_cx_events w side i p).1
  unfolding handle_cx_events
  handle_cx_events-SameBytes side p =
      let failed = failed_cx w side i p in
      let told : Bool × BaseProxy = (false, tell (on_message (with_hook side) i) p) in
      let same : Bool × BaseProxy = (true, p) in
      let keeps = failed_cx-SameBytes side p in
      let last = if (w.answers i).new_message then told else same in
      let errors = if has_error w i p then failed else last in
      let idles = if idle_timeout (at p i) w.now then failed else errors in
      if-SameBytes (opening_timeout (at p i) w.now) j p failed idles keeps (
        if-SameBytes (idle_timeout (at p i) w.now) j p failed errors keeps (
          if-SameBytes (has_error w i p) j p failed last keeps
            (if-SameBytes (w.answers i).new_message j p told same refl refl)))

  failed_io-SameBytes :
      (side : CxSide) (p q : BaseProxy)
      → q.contexts ≡ (shutdown_cx i p).contexts
      → SameBytes j p (error_hook w side i q)
  failed_io-SameBytes side p q e =
      error_hook-SameBytes side q
      ∙ ap (λ cs. (cs j).cx.writebuf_) e
      ∙ set_cx-SameBytes (shutdown (at p i)) p

  after_red-SameBytes :
      (side : CxSide) (red : ℤ) (p : BaseProxy) → SameBytes j p (after_red w side i red p).1
  unfolding after_red
  after_red-SameBytes side (pos zero) p =
      let p' = shutdown_cx i p in
      failed_io-SameBytes side p
        (if is_left side
          then record p' { error_on_left_read = true }
          else record p' { error_on_right_read = true })
        (elim (Bool-cases (is_left side)) [ inl e ↦ rw e refl | inr e ↦ rw e refl ])
  after_red-SameBytes side (pos (suc n)) p = refl
  after_red-SameBytes side (negsuc n) p = refl

  after_wrt-SameBytes :
      (side : CxSide) (wrt : ℤ) (p : BaseProxy) → SameBytes j p (after_wrt w side i wrt p).1
  unfolding after_wrt
  after_wrt-SameBytes side (pos n) p = refl
  after_wrt-SameBytes side (negsuc n) p =
      let p' = shutdown_cx i p in
      failed_io-SameBytes side p
        (if is_left side
          then record p' { error_on_left_write = true }
          else record p' { error_on_right_write = true })
        (elim (Bool-cases (is_left side)) [ inl e ↦ rw e refl | inr e ↦ rw e refl ])

  pub handle_cx_read-SameBytes :
      (side : CxSide) (p : BaseProxy) → SameBytes j p (handle_cx_read w side i p).1
  unfolding handle_cx_read
  handle_cx_read-SameBytes side p₀ =
      let c = p₀.contexts i in
      let c' = record c { forced_read_on_write_ = false } in
      let p = set_context i c' p₀ in
      let (red, h) = read w.room w.process_in (w.answers i).io_read w.now (live w p i) in
      let first = set_context-SameBytes c' p₀ in
      if-SameBytes ((w.answers i).can_read || c.forced_read_on_write_) j p₀
        (after_red w side i red (set_cx i h p)) (true, p)
        (after_red-SameBytes side red (set_cx i h p) ∙ set_cx-SameBytes h p ∙ first) first

  pub handle_cx_write-SameBytes :
      (side : CxSide) (p : BaseProxy) → SameBytes j p (handle_cx_write w side i p).1
  unfolding handle_cx_write
  handle_cx_write-SameBytes side p₀ =
      let c = p₀.contexts i in
      let c' = record c { forced_write_on_read_ = false } in
      let p = set_context i c' p₀ in
      let (wrt, h) = write w.process_out (w.answers i).io_write w.now (live w p i) in
      let first = set_context-SameBytes c' p₀ in
      if-SameBytes ((w.answers i).can_write || c.forced_write_on_read_) j p₀
        (after_wrt w side i wrt (set_cx i h p)) (true, p)
        (after_wrt-SameBytes side wrt (set_cx i h p) ∙ set_cx-SameBytes h p ∙ first) first
