-- ===== src/Proxy/Necks.antt =====
-- The bottleneck of a side follows the write buffer of the context that wrote last.
use socle.Prelude.{
  ℕ, ◌<◌, ◌≡◌, sym, ap, ◌∙◌, subst, inl, inr, true, false, not, ◌||◌, arith, ltb, if◌then◌else◌,
  Bool-cases, is_zero,
}
use socle.HostCx.{size}
use socle.HostCx.Io.{write_waiting_for_peercom}
use socle.Proxy.{CxSide, Outside, BaseProxy, at, live, is_left}
use socle.Proxy.Adjusted.{write_once-IsAdjusted}
use socle.Proxy.Handlers.{dont_read}
use socle.Proxy.Pauses.{
  SameSides, is_paused, on_side, SameSides-necks, SameSides-on_side, start_neck-sets,
  stop_neck-sets,
}
use socle.Proxy.Writes.{own_neck, start_neck, stop_neck, handle_cx_write_once}

-- What the last step makes of the sides.
IsSettled : CxSide → ℕ → ℕ → BaseProxy → BaseProxy → Type 0
IsSettled side i j p q =
    (own_neck side q ≡ ltb 0 (size (at q i).writebuf_))
    × (dont_read side q ≡ dont_read side p)
    × (on_side (not (is_left side)) p j ≡ true
        → on_side (is_left side) p j ≡ false
        → (own_neck side p || own_neck side q) ≡ true
        → is_paused q j ≡ own_neck side q)

adjusted-IsSettled :
    (side : CxSide) (i j : ℕ) (p : BaseProxy)
    → IsSettled side i j p
        (if ltb 0 (size (at p i).writebuf_) then start_neck side i p else stop_neck side p)
unfolding IsSettled
adjusted-IsSettled side i j p = elim (Bool-cases (ltb 0 (size (at p i).writebuf_))) [
  | inl e ↦
      let (own, other, buffer, paused_by) = start_neck-sets side i j p in
      rw e (
        own ∙ sym (ap (λ b. ltb 0 (size b)) buffer ∙ e),
        other,
        λ on off changes. paused_by on off ∙ sym own,
      )
  | inr e ↦
      let (own, other, buffer, paused_by) = stop_neck-sets side i j p in
      rw e (
        own ∙ sym (ap (λ b. ltb 0 (size b)) buffer ∙ e),
        other,
        λ on off changes. paused_by (ground (arith, changes, own)) on ∙ sym own,
      )
]

SameSides-IsSettled :
    (side : CxSide) (i j : ℕ) (p p' q : BaseProxy)
    → SameSides p p'
    → IsSettled side i j p' q
    → IsSettled side i j p q
unfolding IsSettled
SameSides-IsSettled side i j p p' q sides (own, other, paused_by) =
    let (owns, others) = SameSides-necks side p p' sides in
    (
      own,
      other ∙ others,
      λ on off changes.
          paused_by (SameSides-on_side (not (is_left side)) p p' j sides ∙ on)
            (SameSides-on_side (is_left side) p p' j sides ∙ off)
            (ap (λ b. b || own_neck side q) owns ∙ changes),
    )

module _ (w : Outside) where
  write_once-IsSettled :
      (side : CxSide) (i j : ℕ) (p : BaseProxy)
      → is_zero (at p i).fds_ ≡ false
      → (write_waiting_for_peercom (live w p i)).0 ≡ false
      → 0 < size (at p i).writebuf_
      → (handle_cx_write_once w side i p).0 ≡ true
      → IsSettled side i j p (handle_cx_write_once w side i p).1
  write_once-IsSettled side i j p opened free has_bytes ok =
      let (p', sides, e) = write_once-IsAdjusted w side i p opened free has_bytes ok in
      subst (IsSettled side i j p) (sym e) (
        SameSides-IsSettled side i j p p'
          (if ltb 0 (size (at p' i).writebuf_) then start_neck side i p' else stop_neck side p')
          sides (adjusted-IsSettled side i j p'))

  -- A write of a context that has bytes to write, a socket, and no peer to wait for, and that does
  -- not fail: then its side has a bottleneck exactly if bytes are left in the write buffer, and the
  -- other side has one exactly if it had one before.
  pub write_once_neck :
      (side : CxSide) (i : ℕ) (p : BaseProxy)
      → is_zero (at p i).fds_ ≡ false
      → (write_waiting_for_peercom (live w p i)).0 ≡ false
      → 0 < size (at p i).writebuf_
      → (handle_cx_write_once w side i p).0 ≡ true
      → let q = (handle_cx_write_once w side i p).1 in
        (own_neck side q ≡ ltb 0 (size (at q i).writebuf_)) × (dont_read side q ≡ dont_read side p)
  unfolding IsSettled
  write_once_neck side i p opened free has_bytes ok =
      let (own, other, paused_by) = write_once-IsSettled side i i p opened free has_bytes ok in
      (own, other)
