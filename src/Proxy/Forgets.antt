-- ===== src/Proxy/Forgets.antt =====
-- A write of one context and the bottleneck that another one of the same side needs.
use socle.Prelude.{
  ℕ, ◌<◌, ◌≡◌, refl, sym, ap, ◌∙◌, subst, Bool, true, false, not, ◌&&◌, ◌||◌, ltb, ◌==◌,
  if◌then◌else◌, same, is_zero,
}
use socle.HostCx.{size}
use socle.HostCx.Io.{write_waiting_for_peercom}
use socle.Proxy.{
  CxSide, Outside, cx_set_write_monitor, BaseProxy, tell, at, live, set_context, set_cx, is_left,
}
use socle.Proxy.Handlers.{errored, handle_cx_events, handle_cx_read, handle_cx_write}
use socle.Proxy.Monitors.{keep, pause, unpause, change_side_monitoring}
use socle.Proxy.Necks.{write_once_neck}
use socle.Proxy.Others.{
  SameBytes, if-SameBytes, set_context-SameBytes, set_cx-SameBytes, handle_cx_events-SameBytes,
  handle_cx_read-SameBytes, handle_cx_write-SameBytes,
}
use socle.Proxy.Pauses.{change_side-sides, set_neck-sets, stop_neck-sets}
use socle.Proxy.Writes.{
  own_neck, set_neck, start_neck, stop_neck, adjust_neck, failed_once, write_part,
  handle_cx_write_once,
}

module _ (w : Outside) (i j : ℕ) (other : (j == i) ≡ false) where
  start_neck-SameBytes : (side : CxSide) (p : BaseProxy) → SameBytes j p (start_neck side i p)
  unfolding start_neck
  start_neck-SameBytes side p =
      let l = is_left side in
      let told = tell (cx_set_write_monitor i) p in
      let p₁ = set_neck side true told in
      let p₂ = change_side_monitoring (not l) false false pause keep p₁ in
      let (own, others, same, sides) = set_neck-sets side l true told j j in
      let (sides₁, same₁, flag₁) = change_side-sides (not l) false false pause keep p₁ j in
      let (sides₂, same₂, flag₂) = change_side-sides l true true unpause unpause p₂ j in
      same₂ ∙ same₁ ∙ same

  stop_neck-SameBytes : (side : CxSide) (p : BaseProxy) → SameBytes j p (stop_neck side p)
  stop_neck-SameBytes side p = (stop_neck-sets side j j p).2

  adjust_neck-SameBytes :
      (side : CxSide) (orig pending : ℕ) (p : BaseProxy)
      → SameBytes j p (adjust_neck side i orig pending p)
  unfolding adjust_neck
  adjust_neck-SameBytes side orig pending p =
      let adjusted = λ (b : Bool). if b then start_neck side i p else stop_neck side p in
      elim (ltb 0 orig) as (λ b. SameBytes j p (if b then adjusted (ltb 0 pending) else p)) [
        | true ↦ elim (ltb 0 pending) as (λ b. SameBytes j p (adjusted b)) [
          | true ↦ start_neck-SameBytes side p
          | false ↦ stop_neck-SameBytes side p
        ]
        | false ↦ refl
      ]

  failed_once-SameBytes : (side : CxSide) (p : BaseProxy) → SameBytes j p (failed_once w side i p).1
  failed_once-SameBytes side p = handle_cx_events-SameBytes w i j other side p

  write_part-SameBytes : (side : CxSide) (p : BaseProxy) → SameBytes j p (write_part w side i p).1
  unfolding write_part
  write_part-SameBytes side p =
      let orig = size (at p i).writebuf_ in
      let (ok, p₁) = handle_cx_write w side i p in
      let pending = size (at p₁ i).writebuf_ in
      let red : Bool × BaseProxy =
        if (p₁.contexts i).forced_read_on_write_ then handle_cx_read w side i p₁ else (true, p₁) in
      let p₂ = red.1 in
      let first = handle_cx_write-SameBytes w i j other side p in
      let second : SameBytes j p₁ p₂ =
        if-SameBytes (p₁.contexts i).forced_read_on_write_ j p₁ (handle_cx_read w side i p₁)
          (true, p₁) (handle_cx_read-SameBytes w i j other side p₁) refl in
      let done : Bool × BaseProxy = (true, adjust_neck side i orig pending p₂) in
      let rest = if not red.0 then failed_once w side i p₂ else done in
      if-SameBytes (not ok) j p (failed_once w side i p₁) rest
        (failed_once-SameBytes side p₁ ∙ first)
        (if-SameBytes (not red.0) j p (failed_once w side i p₂) done
          (failed_once-SameBytes side p₂ ∙ second ∙ first)
          (adjust_neck-SameBytes side orig pending p₂ ∙ second ∙ first))

  handle_cx_write_once-SameBytes :
      (side : CxSide) (p : BaseProxy) → SameBytes j p (handle_cx_write_once w side i p).1
  unfolding handle_cx_write_once
  handle_cx_write_once-SameBytes side p₀ =
      let (waiting, h) = write_waiting_for_peercom (live w p₀ i) in
      let p = set_cx i h p₀ in
      let c = p.contexts i in
      let c' = record c { forced_write_ = c.forced_write_ && c.forced_write_always_ } in
      let p₁ = set_context i c' p in
      let first = set_cx-SameBytes w i j other h p₀ in
      let second = set_context-SameBytes w i j other c' p ∙ first in
      let b = (w.answers i).writeset || c.forced_write_ || ltb 0 (size (at p₁ i).writebuf_) in
      let same : Bool × BaseProxy = (true, p₁) in
      let writes = if b then write_part w side i p₁ else same in
      let events = handle_cx_events w side i p in
      let failed = failed_once w side i (errored i p₀) in
      if-SameBytes (is_zero (at p₀ i).fds_) j p₀ failed (if waiting then events else writes)
        (failed_once-SameBytes side (errored i p₀)
          ∙ set_cx-SameBytes w i j other (record (at p₀ i) { error_ = true }) p₀)
        (if-SameBytes waiting j p₀ events writes
          (handle_cx_events-SameBytes w i j other side p ∙ first)
          (if-SameBytes b j p₀ (write_part w side i p₁) same (write_part-SameBytes side p₁ ∙ second)
            second))

  -- A write of a context that has bytes to write, a socket, and no peer to wait for, and that
  -- succeeds and empties the buffer: then its side has no bottleneck, though bytes that wait in
  -- another context, also one of the same side, still wait.
  pub neck_forgets :
      (side : CxSide) (p : BaseProxy)
      → is_zero (at p i).fds_ ≡ false
      → (write_waiting_for_peercom (live w p i)).0 ≡ false
      → 0 < size (at p i).writebuf_
      → 0 < size (at p j).writebuf_
      → (handle_cx_write_once w side i p).0 ≡ true
      → size (at (handle_cx_write_once w side i p).1 i).writebuf_ ≡ 0
      → let q = (handle_cx_write_once w side i p).1 in
        (own_neck side q ≡ false) × (0 < size (at q j).writebuf_)
  neck_forgets side p opened free has_bytes others_wait ok emptied =
      let (own, others) = write_once_neck w side i p opened free has_bytes ok in
      (
        own ∙ ap (ltb 0) emptied,
        subst (λ b. 0 < size b) (sym (handle_cx_write_once-SameBytes side p)) others_wait,
      )
