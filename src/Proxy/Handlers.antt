-- ===== src/Proxy/Handlers.antt =====
-- baseproxy.cpp: what a proxy does with one context: its events, a read and a write.
use socle.Prelude.{
  ℕ, zero, suc, ◌+◌, Bool, true, false, not, ◌&&◌, ◌||◌, if◌then◌else◌, ℤ, pos, negsuc, is_zero,
}
use socle.HostCx.{opening_timeout, idle_timeout}
use socle.HostCx.Io.{read, read_waiting_for_peercom}
use socle.HostCx.Out.{write}
use socle.Proxy.{
  CxSide, left, right, Outside, on_bytes, on_message, BaseProxy, tell, at, live, has_error,
  set_context, set_cx, shutdown_cx, is_left, error_hook,
}

-- `on_left_message` for 'l' and 'x', and `on_right_message` for 'r' and 'y'
abbrev pub with_hook : CxSide → CxSide
with_hook side = if is_left side then left else right

abbrev pub errored : ℕ → BaseProxy → BaseProxy
errored i p = set_cx i (record (at p i) { error_ = true }) p

-- A side does not read while the other one has a bottleneck.
abbrev pub dont_read : CxSide → BaseProxy → Bool
dont_read side p = if is_left side then p.write_right_neck_ else p.write_left_neck_

module _ (w : Outside) where
  abbrev pub failed_cx : CxSide → ℕ → BaseProxy → Bool × BaseProxy
  failed_cx side i p = (false, shutdown_cx i (error_hook w side i p))

  unfoldable pub handle_cx_events : CxSide → ℕ → BaseProxy → Bool × BaseProxy
  handle_cx_events side i p =
      if opening_timeout (at p i) w.now
      then failed_cx side i p
      else if idle_timeout (at p i) w.now
      then failed_cx side i p
      else if has_error w i p
      then failed_cx side i p
      else if (w.answers i).new_message
      then (false, tell (on_message (with_hook side) i) p)
      else (true, p)

  abbrev pub read_failed : CxSide → ℕ → BaseProxy → BaseProxy
  read_failed side i p =
      let p' = shutdown_cx i p in
      error_hook w side i (
        if is_left side
        then record p' { error_on_left_read = true }
        else record p' { error_on_right_read = true })

  abbrev pub write_failed : CxSide → ℕ → BaseProxy → BaseProxy
  write_failed side i p =
      let p' = shutdown_cx i p in
      error_hook w side i (
        if is_left side
        then record p' { error_on_left_write = true }
        else record p' { error_on_right_write = true })

  -- What follows a read of the context.
  unfoldable pub after_red : CxSide → ℕ → ℤ → BaseProxy → Bool × BaseProxy
  after_red side i (pos zero) p = (false, read_failed side i p)
  after_red side i (pos (suc n)) p =
      (true, tell (on_bytes (with_hook side) i) (record p { last_read = p.last_read + suc n }))
  after_red side i (negsuc n) p = (true, p)

  unfoldable pub handle_cx_read : CxSide → ℕ → BaseProxy → Bool × BaseProxy
  handle_cx_read side i p₀ =
      let c = p₀.contexts i in
      let p = set_context i (record c { forced_read_on_write_ = false }) p₀ in
      if (w.answers i).can_read || c.forced_read_on_write_
      then (let (red, h) = read w.room w.process_in (w.answers i).io_read w.now (live w p i) in
          after_red side i red (set_cx i h p))
      else (true, p)

  unfoldable pub after_wrt : CxSide → ℕ → ℤ → BaseProxy → Bool × BaseProxy
  after_wrt side i (pos n) p = (true, record p { last_write = p.last_write + n })
  after_wrt side i (negsuc n) p = (false, write_failed side i p)

  unfoldable pub handle_cx_write : CxSide → ℕ → BaseProxy → Bool × BaseProxy
  handle_cx_write side i p₀ =
      let c = p₀.contexts i in
      let p = set_context i (record c { forced_write_on_read_ = false }) p₀ in
      if (w.answers i).can_write || c.forced_write_on_read_
      then (let (wrt, h) = write w.process_out (w.answers i).io_write w.now (live w p i) in
          after_wrt side i wrt (set_cx i h p))
      else (true, p)

  -- the part of `handle_cx_read_once` that the label `failure` ends
  unfoldable pub read_part : CxSide → ℕ → BaseProxy → Bool × BaseProxy
  read_part side i p₀ =
      let (waiting, h) = read_waiting_for_peercom (live w p₀ i) in
      let p = set_cx i h p₀ in
      if not waiting && not (dont_read side p)
      then (let c = p.contexts i in
          let p₁ =
            set_context i (record c { forced_read_ = c.forced_read_ && c.forced_read_always_ }) p in
          if (w.answers i).readset || c.forced_read_
          then (let (ok, p₂) = handle_cx_read side i p₁ in
              if ok && (p₂.contexts i).forced_write_on_read_
              then handle_cx_write side i p₂
              else (ok, p₂))
          else (true, p₁))
      else (true, p)

  unfoldable pub handle_cx_read_once : CxSide → ℕ → BaseProxy → Bool × BaseProxy
  handle_cx_read_once side i p =
      let (ok, p₁) = if is_zero (at p i).fds_ then (false, errored i p) else read_part side i p in
      let (fine, p₂) = handle_cx_events side i p₁ in (ok && fine, p₂)
