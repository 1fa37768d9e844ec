-- ===== src/Proxy/Writes.antt =====
-- baseproxy.cpp: a write of one context, and the bottleneck of a side that could not write all.
use socle.Prelude.{ℕ, Bool, true, false, not, ◌&&◌, ◌||◌, ltb, if◌then◌else◌, is_zero}
use socle.HostCx.{size}
use socle.HostCx.Io.{write_waiting_for_peercom}
use socle.Proxy.{
  CxSide, Outside, cx_set_write_monitor, BaseProxy, tell, at, live, set_context, set_cx, is_left,
}
use socle.Proxy.Handlers.{errored, handle_cx_events, handle_cx_read, handle_cx_write}
use socle.Proxy.Monitors.{keep, pause, unpause, change_side_monitoring}

-- whether the side of the context has a bottleneck
abbrev pub own_neck : CxSide → BaseProxy → Bool
own_neck side p = if is_left side then p.write_left_neck_ else p.write_right_neck_

abbrev pub set_neck : CxSide → Bool → BaseProxy → BaseProxy
set_neck side b p =
    if is_left side then record p { write_left_neck_ = b } else record p { write_right_neck_ = b }

-- What follows a write of a context that left bytes in its buffer.
unfoldable pub start_neck : CxSide → ℕ → BaseProxy → BaseProxy
start_neck side i p = change_side_monitoring (is_left side) true true unpause unpause (
    change_side_monitoring (not (is_left side)) false false pause keep
      (set_neck side true (tell (cx_set_write_monitor i) p)))

-- What follows a write of a context that emptied its buffer.
unfoldable pub stop_neck : CxSide → BaseProxy → BaseProxy
stop_neck side p =
    if own_neck side p
    then change_side_monitoring (not (is_left side)) true false unpause keep (set_neck side false p)
    else p

-- `orig_bytes_sz` and `pending_bytes_sz` are the bytes that waited before and after the write.
unfoldable pub adjust_neck : CxSide → ℕ → ℕ → ℕ → BaseProxy → BaseProxy
adjust_neck side i orig_bytes_sz pending_bytes_sz p =
    if ltb 0 orig_bytes_sz
    then (if ltb 0 pending_bytes_sz then start_neck side i p else stop_neck side p)
    else p

module _ (w : Outside) where
  abbrev pub failed_once : CxSide → ℕ → BaseProxy → Bool × BaseProxy
  failed_once side i p = (false, (handle_cx_events w side i p).1)

  -- the part of `handle_cx_write_once` that writes
  unfoldable pub write_part : CxSide → ℕ → BaseProxy → Bool × BaseProxy
  write_part side i p =
      let orig_bytes_sz = size (at p i).writebuf_ in
      let (ok, p₁) = handle_cx_write w side i p in
      if not ok
      then failed_once side i p₁
      else (let pending_bytes_sz = size (at p₁ i).writebuf_ in
          let (read_ok, p₂) =
            if (p₁.contexts i).forced_read_on_write_
            then handle_cx_read w side i p₁
            else (true, p₁) in
          if not read_ok
          then failed_once side i p₂
          else (true, adjust_neck side i orig_bytes_sz pending_bytes_sz p₂))

  unfoldable pub handle_cx_write_once : CxSide → ℕ → BaseProxy → Bool × BaseProxy
  handle_cx_write_once side i p₀ =
      if is_zero (at p₀ i).fds_
      then failed_once side i (errored i p₀)
      else (let (waiting, h) = write_waiting_for_peercom (live w p₀ i) in
          let p = set_cx i h p₀ in
          if waiting
          then handle_cx_events w side i p
          else (let c = p.contexts i in
              let p₁ =
                set_context i
                  (record c { forced_write_ = c.forced_write_ && c.forced_write_always_ }) p in
              if (w.answers i).writeset || c.forced_write_ || ltb 0 (size (at p₁ i).writebuf_)
              then write_part side i p₁
              else (true, p₁)))
