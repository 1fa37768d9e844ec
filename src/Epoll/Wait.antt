-- ===== src/Epoll/Wait.antt =====
-- common/epoll.cpp: wait, and what it does before and after the system's epoll_wait. An access of
-- the array of events past its end has no result.
use socle.Prelude.{
  ℕ, zero, suc, ◌+◌, Option, none, some, List, [], ◌∷◌, ◌++◌, ◌==◌, if◌then◌else◌, length,
  get_elem?, drop, ℤ, pos, negsuc,
}
use socle.Epoll.{
  clear, add, epollin, epollout, epoller_max_events, EpollEvent, has_in, has_out, Ctl, Status,
  Epoll, clear_idle_watch, click_timer_now, process_pre_wait_idles, enforced_to_inset, modify,
}
use socle.Epoll.Sets.{insert}

-- What epoll_wait returns: events, or -1 with EINTR or with another error.
pub data Answer : Type 0 where
  ready : List EpollEvent → Answer
  interrupted broken : Answer

-- epoll_wait writes to the start of the array.
abbrev pub filled : List EpollEvent → Epoll → Epoll
filled evs e = record e { events = evs ++ drop (length evs) e.events }

module _ (answer : List Ctl → Ctl → Status) where
  unfoldable pub add_each : List ℕ → ℕ → Epoll → Epoll
  add_each [] mask e = e
  add_each (s ∷ ss) mask e = add_each ss mask (add answer s mask e).1

  unfoldable pub process_pre_wait_rescans : Epoll → Epoll
  process_pre_wait_rescans e =
      let e₁ = record (add_each e.rescan_set_in epollin e) { rescan_set_in = [] } in
      record (add_each e₁.rescan_set_out (epollin + epollout) e₁) { rescan_set_out = [] }

  -- The body of the loop of `process_epoll_events`.
  unfoldable pub process_event : EpollEvent → Epoll → Epoll
  process_event ev e =
      if has_in ev.flags
      then (clear_idle_watch ev.fd (record e { in_set = insert ev.fd e.in_set })).1
      else if has_out ev.flags
      then (let e' = (clear_idle_watch ev.fd (record e { out_set = insert ev.fd e.out_set })).1 in
          if e'.auto_epollout_remove then (modify answer ev.fd epollin e').1 else e')
      else record e { err_set = insert ev.fd e.err_set }

  -- `process_epoll_events` from the entry `i` on, for `n` more entries
  unfoldable pub process_events : ℕ → ℕ → Epoll → Option Epoll
  process_events zero i e = some e
  process_events (suc n) i e = elim (get_elem? e.events i) [
    | none ↦ none
    | some ev ↦ process_events n (suc i) (process_event ev e)
  ]

  -- The loop of `wait`: `nfds` so far, and what epoll_wait returns in each round. With no answer
  -- left, it returns that no socket is ready.
  unfoldable pub poll : List Answer → ℕ → Epoll → Option (ℤ × Epoll)
  poll [] nfds e = elim (process_events nfds 0 e) [
    | none ↦ none
    | some e' ↦ some (pos nfds, enforced_to_inset e')
  ]
  poll (interrupted ∷ answers) nfds e = some (pos nfds, e)
  poll (broken ∷ answers) nfds e = some (negsuc 0, e)
  poll (ready evs ∷ answers) nfds e = elim (process_events (nfds + length evs) 0 (filled evs e)) [
    | none ↦ none
    | some e' ↦
        if length evs == epoller_max_events
        then poll answers (nfds + length evs) e'
        else some (pos (nfds + length evs), enforced_to_inset e')
  ]

  unfoldable pub before_wait : ℕ → Epoll → Epoll
  before_wait now e =
      let (ticked, e₁) = click_timer_now now (clear e) in
      if ticked then process_pre_wait_idles (process_pre_wait_rescans e₁) else e₁

  unfoldable pub wait : ℕ → List Answer → Epoll → Option (ℤ × Epoll)
  wait now answers e = poll answers 0 (before_wait now e)
