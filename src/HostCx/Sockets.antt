-- ===== src/HostCx/Sockets.antt =====
-- The descriptors that a host context opens and closes.
use mathlib.Core.List.{append_assoc, append-nil}
use socle.Prelude.{
  ℕ, ◌≡◌, refl, ap, ◌∙◌, Bool, true, false, List, [], ◌∷◌, ◌++◌, arith, if◌then◌else◌, ℤ, is_zero,
  is_positive,
}
use socle.HostCx.{
  ComCall, com_shutdown, com_close, HostCx, call, opening, connect, unhandled, unhandle, shutdown,
  should_reconnect_now, reconnect, closing, destroy,
}

-- The descriptors that the calls of the Com close.
abbrev pub closes : ComCall → List ℤ
closes (com_close s) = s ∷ []
closes c = []

abbrev pub closed : List ComCall → List ℤ
closed [] = []
closed (c ∷ cs) = closes c ++ closed cs

abbrev pub if_positive : ℤ → List ℤ
if_positive s = if is_positive s then s ∷ [] else []

closed-append : (cs ds : List ComCall) → closed (cs ++ ds) ≡ closed cs ++ closed ds
closed-append [] ds = refl
closed-append (c ∷ cs) ds = simp (append_assoc, closed-append cs ds)

closed-closing : (s : ℤ) → closed (closing s) ≡ if_positive s
closed-closing s = ground arith

destroy-closed :
    (cx : HostCx)
    → closed (destroy cx).com_calls
      ≡ closed cx.com_calls ++ (if_positive cx.fds_ ++ if_positive cx.closing_fds_)
unfolding destroy
destroy-closed cx = simp (
  closed-append,
  append_assoc,
  append-nil,
  closed-closing cx.fds_,
  closed-closing cx.closing_fds_,
)

closed-unhandled : (cx : HostCx) → closed (unhandled cx) ≡ []
closed-unhandled cx = ground arith

-- `shutdown` of an open socket closes nothing, and keeps the socket to be closed later.
shutdown-closed :
    (cx : HostCx)
    → is_zero cx.fds_ ≡ false
    → (closed (shutdown cx).com_calls ≡ closed cx.com_calls)
      × ((shutdown cx).closing_fds_ ≡ cx.fds_)
unfolding shutdown unhandle
shutdown-closed cx h =
    let c =
      call (com_shutdown cx.fds_)
        (record cx { has_parent_proxy = false; closing_fds_ = cx.fds_ }) in
    let e : closed (c.com_calls ++ unhandled c) ≡ closed cx.com_calls =
      simp (closed-append, append_assoc, append-nil, closed-unhandled c) in
    ground (arith, e)

connect-closed :
    (fd : ℤ) (blocking : Bool) (now : ℕ) (cx : HostCx)
    → let c = (connect fd blocking now cx).1 in
      (c.com_calls ≡ cx.com_calls) × (c.closing_fds_ ≡ cx.closing_fds_) × (c.fds_ ≡ fd)
unfolding connect opening
connect-closed fd blocking now cx = ground arith

reconnect-closed :
    (fd : ℤ) (blocking : Bool) (now : ℕ) (cx : HostCx)
    → should_reconnect_now cx now ≡ true
    → cx.permanent_ ≡ true
    → is_zero cx.fds_ ≡ false
    → let c = (reconnect fd blocking now cx).1 in
      (closed c.com_calls ≡ closed cx.com_calls) × (c.closing_fds_ ≡ cx.fds_) × (c.fds_ ≡ fd)
unfolding reconnect
reconnect-closed fd blocking now cx due permanent open_fd =
    let e = connect-closed fd blocking now (shutdown cx) in
    let f = shutdown-closed cx open_fd in rw due (ground (arith, permanent, e, f, ap closed e.0))

-- A permanent context that is due to reconnect closes, over the reconnection and its destruction,
-- the new descriptor and the one that the reconnection shut, and no other: a descriptor of an
-- earlier connection that waits to be closed is never closed.
pub reconnect_leaks :
    (fd : ℤ) (blocking : Bool) (now : ℕ) (cx : HostCx)
    → should_reconnect_now cx now ≡ true
    → cx.permanent_ ≡ true
    → is_zero cx.fds_ ≡ false
    → closed (destroy (reconnect fd blocking now cx).1).com_calls
      ≡ closed cx.com_calls ++ (if_positive fd ++ if_positive cx.fds_)
reconnect_leaks fd blocking now cx due permanent open_fd =
    let c = (reconnect fd blocking now cx).1 in
    let (calls, waiting, sock) = reconnect-closed fd blocking now cx due permanent open_fd in
    destroy-closed c ∙ rw (calls, waiting, sock) refl
