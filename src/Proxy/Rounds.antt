-- ===== src/Proxy/Rounds.antt =====
-- baseproxy.cpp: a round over all contexts of a proxy, its timers, and the accepting of new
-- contexts.
use socle.Prelude.{
  ℕ, zero, suc, ◌+◌, Bool, true, false, not, ◌&&◌, Option, none, some, List, [], ◌∷◌, ltb,
  if◌then◌else◌, sub_u64, ℤ, pos, negsuc,
}
use socle.HostCx.{host_cx, opening, idle_timeout, reduced, should_reconnect_now}
use socle.HostCx.Io.{read_waiting_for_peercom}
use socle.Proxy.{
  CxSide, left, right, left_pc, right_pc, Context, Outside, on_new_raw, cx_accept_socket,
  cx_delay_socket, BaseProxy, tell, at, live, has_error, set_context, set_cx, is_left, error_hook,
}
use socle.Proxy.Handlers.{handle_cx_read_once}
use socle.Proxy.Sides.{watched, ladd, radd}
use socle.Proxy.Writes.{handle_cx_write_once}

-- a loop that ends at the first context whose handler returns false
unfoldable pub each_cx : (ℕ → BaseProxy → Bool × BaseProxy) → List ℕ → BaseProxy → BaseProxy
each_cx handle [] p = p
each_cx handle (i ∷ is) p =
    let (ok, p') = handle i p in let rest = each_cx handle is p' in if ok then rest else p'

module _ (w : Outside) where
  -- `clicker::reset_timer`
  unfoldable pub reset_timer : BaseProxy → Bool × BaseProxy
  reset_timer p =
      if ltb 1 (sub_u64 w.now p.last_tick_)
      then (true, record p { last_tick_ = w.now })
      else (false, p)

  -- the check of idle contexts; `on_timer` of a context does nothing
  unfoldable pub for_each_check : List ℕ → BaseProxy → BaseProxy
  for_each_check [] p = p
  for_each_check (i ∷ is) p =
      for_each_check is (if idle_timeout (at p i) w.now then record p { dead_ = true } else p)

  unfoldable pub run_timers : BaseProxy → Bool × BaseProxy
  run_timers p₀ =
      let (clicked, p) = reset_timer p₀ in
      if clicked
      then (
        true,
        for_each_check p.right_pc_cx (
            for_each_check p.right_delayed_accepts (
              for_each_check p.right_sockets (
                for_each_check p.left_pc_cx
                  (for_each_check p.left_delayed_accepts (for_each_check p.left_sockets p))))),
      )
      else (false, p)

  -- `on_left_pc_restore` and `on_right_pc_restore`
  unfoldable pub on_pc_restore : ℕ → BaseProxy → BaseProxy
  on_pc_restore i p =
      let p' = set_cx i (opening false w.now (at p i)) p in watched w (at p' i).fds_ p'

  abbrev pub pc_failed : CxSide → ℕ → BaseProxy → Bool × BaseProxy
  pc_failed side i p = (false, error_hook w side i p)

  abbrev pub restored : ℕ → BaseProxy → BaseProxy
  restored i p = if (at p i).opening_ then on_pc_restore i p else p

  -- one of the two steps of a permanent context, and the flag that its failure sets
  unfoldable pub pc_step :
      (CxSide → ℕ → BaseProxy → Bool × BaseProxy)
      → (BaseProxy → BaseProxy)
      → CxSide
      → ℕ
      → BaseProxy
      → Bool × BaseProxy
  pc_step once flag side i p =
      if has_error w i p && should_reconnect_now (at p i) w.now
      then pc_failed side i p
      else if has_error w i p
      then (false, p)
      else (let (ok, p') = once side i p in
          if ok then (true, restored i p') else pc_failed side i (flag p'))

  unfoldable pub handle_pc_once : CxSide → ℕ → BaseProxy → Bool × BaseProxy
  handle_pc_once side i p =
      let (ok, p₁) =
        pc_step (handle_cx_read_once w)
          (λ (q : BaseProxy).
            if is_left side
            then record q { error_on_left_read = true }
            else record q { error_on_right_read = true })
          side i p in
      let step₂ =
        pc_step (handle_cx_write_once w)
          (λ (q : BaseProxy).
            if is_left side
            then record q { error_on_left_write = true }
            else record q { error_on_right_write = true })
          side i p₁ in
      if ok then step₂ else (false, p₁)

  -- `on_accept_socket`
  unfoldable pub on_accept_socket : ℕ → ℤ → BaseProxy → BaseProxy
  on_accept_socket i s p₀ =
      let p = tell (cx_accept_socket i s) p₀ in
      let (h, q) = (w.answers i).resolved_src in
      if reduced (at p i) then set_cx i (record (at p i) { host_ = h; port_ = q }) p else p

  -- `accepted`, for a context that waits until its peer is ready
  unfoldable pub accepted : (ℕ → BaseProxy → BaseProxy) → ℕ → BaseProxy → Bool × BaseProxy
  accepted action i p₀ =
      let (waiting, h) = read_waiting_for_peercom (live w p₀ i) in
      let p = set_cx i h p₀ in
      if waiting then (false, p) else (true, action i (on_accept_socket i (at p i).fds_ p))

  -- the contexts that still wait, and the state
  unfoldable pub accept_from : (ℕ → BaseProxy → BaseProxy) → List ℕ → BaseProxy → List ℕ × BaseProxy
  accept_from action [] p = ([], p)
  accept_from action (i ∷ is) p =
      let (done, p₁) = accepted action i p in
      let (rest, p₂) = accept_from action is p₁ in (if done then rest else i ∷ rest, p₂)

  -- A new context behind a new pointer.
  abbrev pub new_cx : ℤ → BaseProxy → ℕ × BaseProxy
  new_cx client p =
      let c : Context = record {
        cx = host_cx w.room client w.now;
        peer = none;
        forced_read_ = false;
        forced_write_ = false;
        forced_read_on_write_ = false;
        forced_write_on_read_ = false;
        forced_read_always_ = false;
        forced_write_always_ = false;
      } in
      (p.new_pointer, record (set_context p.new_pointer c p) { new_pointer = p.new_pointer + 1 })

  abbrev pub on_new : CxSide → ℕ → BaseProxy → BaseProxy
  on_new side i p = if is_left side then ladd w i p else radd w i p

  unfoldable pub accept_client : CxSide → ℤ → BaseProxy → Bool × BaseProxy
  accept_client side (negsuc n) p = (false, p)
  accept_client side (pos client) p =
      if p.new_raw_
      then (true, tell (on_new_raw side (pos client)) p)
      else (let (i, p₁) = new_cx (pos client) p in
          let (waiting, h) = read_waiting_for_peercom (live w p₁ i) in
          let p₂ = set_cx i h p₁ in
          let p₃ =
            if waiting
            then tell (cx_delay_socket i (pos client)) p₂
            else on_accept_socket i (pos client) p₂ in
          (true, on_new side i p₃))

  unfoldable pub handle_sockets_accept : CxSide → ℕ → BaseProxy → Bool × BaseProxy
  handle_sockets_accept side i p = accept_client side (w.answers i).accept_fd p

  -- The loop over the bound sockets; false is the exception of a socket that has no mutex.
  unfoldable pub accept_bound : CxSide → List ℕ → BaseProxy → Bool × BaseProxy
  accept_bound side [] p = (true, p)
  accept_bound side (i ∷ is) p =
      let p' = (handle_sockets_accept side i p).1 in
      let rest = accept_bound side is p' in
      let skipped = accept_bound side is p in
      if (w.answers i).readset
      then (if w.has_mutex (at p i).fds_ then rest else (false, p'))
      else skipped

  -- the bound sockets and the delayed contexts of both sides
  unfoldable pub accept_all : BaseProxy → Bool × BaseProxy
  accept_all p₀ =
      let (ok₁, p₁) = accept_bound left p₀.left_bind_sockets p₀ in
      if not ok₁
      then (false, p₁)
      else (let (rest₁, p₂) = accept_from (ladd w) p₁.left_delayed_accepts p₁ in
          let p₃ = record p₂ { left_delayed_accepts = rest₁ } in
          let (ok₂, p₄) = accept_bound right p₃.right_bind_sockets p₃ in
          if not ok₂
          then (false, p₄)
          else (let (rest₂, p₅) = accept_from (radd w) p₄.right_delayed_accepts p₄ in
              (true, record p₅ { right_delayed_accepts = rest₂ })))

  unfoldable pub handle_all : BaseProxy → BaseProxy
  handle_all p₀ =
      let p₁ = each_cx (handle_cx_read_once w left) p₀.left_sockets p₀ in
      let p₂ = each_cx (handle_cx_read_once w right) p₁.right_sockets p₁ in
      let p₃ = each_cx (handle_cx_write_once w left) p₂.left_sockets p₂ in
      let p₄ = each_cx (handle_cx_write_once w right) p₃.right_sockets p₃ in
      let p₅ = each_cx (handle_pc_once left_pc) p₄.left_pc_cx p₄ in
      each_cx (handle_pc_once right_pc) p₅.right_pc_cx p₅

  abbrev pub cleared : BaseProxy → BaseProxy
  cleared p = record p {
    last_read = 0;
    last_write = 0;
    error_on_left_read = false;
    error_on_left_write = false;
    error_on_right_read = false;
    error_on_right_write = false;
  }

  -- `handle_sockets_once`: what it returns, or none where it throws.
  unfoldable pub handle_sockets_once : BaseProxy → Option ℕ × BaseProxy
  handle_sockets_once p₀ =
      let p₁ = cleared (run_timers p₀).1 in
      elim w.poll_result [
        | negsuc n ↦ (some 0, p₁)
        | pos zero ↦ (some 0, handle_all p₁)
        | pos (suc n) ↦
            let (ok, p₂) = accept_all (handle_all p₁) in
            (if ok then some (p₂.last_read + p₂.last_write) else none, p₂)
      ]
