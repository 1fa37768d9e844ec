-- ===== src/Epoll/Tests.antt =====
-- The theorems on an epoll object with a few sockets.
use native.Mathlib.Decide.{ℕ_discrete}
use socle.Prelude.{
  ℕ, ◌+◌, ◌≡◌, refl, ◌≢◌, true, false, ◌||◌, none, some, List, [], ◌∷◌, ◌++◌, arith, replicate,
  nat_key, store, pos,
}
use socle.Epoll.{
  epollin, epollout, EpollEvent, Ctl, ctl_del, Status, success, Epoll, new_epoll, rescans_empty,
  rescan_in,
}
use socle.Epoll.Handlers.{get_handler, set_handler, destroy_handler}
use socle.Epoll.Handlers.Gone.{
  empty, sets, clears, serve_all, destroyed_handler_gone, moved_handler_dangles,
}
use socle.Epoll.Idle.{idle_reported}
use socle.Epoll.Reports.{readable, wait_reports, wait_overruns}
use socle.Epoll.Sets.{find, insert}
use socle.Epoll.Wait.{ready, before_wait, wait}
use socle.Epoll.Watching.{active_reported, adding, rescan_in_added}

abbrev agrees : List Ctl → Ctl → Status
agrees cs c = success

abbrev base : Epoll
base = record (new_epoll 0) {
  enforce_in_set = 6 ∷ [];
  rescan_set_in = 8 ∷ [];
  rescan_set_out = 9 ∷ [];
  idle_watched_pre = 5 ∷ 7 ∷ [];
  idle_watched = 5 ∷ [];
  idle_round = false;
}

abbrev readable_event : ℕ → EpollEvent
readable_event s = record { fd = s; flags = epollin }

wait_reports_example :
    (e' : Epoll) × (wait agrees 50 (ready (readable_event 7 ∷ []) ∷ []) base ≡ some (pos 1, e'))
    × (find 7 e'.in_set ≡ (find 7 base.enforce_in_set || readable 7 (readable_event 7 ∷ [])))
    × (e'.enforce_in_set ≡ [])
wait_reports_example = wait_reports agrees 50 7 (readable_event 7 ∷ []) [] base (omega arith)

abbrev fifty : List EpollEvent
fifty = replicate 50 (readable_event 7)

wait_overruns_example :
    wait agrees 50 (ready fifty ∷ ready (readable_event 8 ∷ []) ∷ []) (new_epoll 0) ≡ none
unfolding new_epoll
wait_overruns_example =
    wait_overruns agrees 50 fifty (readable_event 8 ∷ []) [] (new_epoll 0) refl refl (omega arith)
      (omega arith)

idle_reported_example :
    (e₁ e₂ e₃ : Epoll) × (wait agrees 1001 (ready (readable_event 8 ∷ []) ∷ []) base
      ≡ some (pos 1, e₁))
    × (wait agrees 2002 (ready [] ∷ []) e₁ ≡ some (pos 0, e₂))
    × (wait agrees 3003 (ready [] ∷ []) e₂ ≡ some (pos 0, e₃))
    × ((find 7 e₂.idle_set || find 7 e₃.idle_set) ≡ true)
unfolding new_epoll find
idle_reported_example =
    idle_reported agrees 7 1001 2002 3003 (readable_event 8 ∷ []) [] [] base refl refl refl refl
      (omega arith) (omega arith) (omega arith) (omega arith) (omega arith) (omega arith)

active_reported_example :
    (e₁ e₂ : Epoll) × (wait agrees 50 (ready (readable_event 5 ∷ []) ∷ []) base ≡ some (pos 1, e₁))
    × (wait agrees 1001 (ready [] ∷ []) e₁ ≡ some (pos 0, e₂))
    × (find 5 e₁.in_set ≡ true)
    × (find 5 e₂.idle_set ≡ true)
unfolding new_epoll find
active_reported_example =
    active_reported agrees 50 1001 (readable_event 5) base refl refl refl refl (omega arith)
      (omega arith)

rescan_in_added_example :
    let e₁ = (rescan_in agrees 10 4 base).1 in
    let e₂ = before_wait agrees 90 e₁ in
    let e₃ = before_wait agrees 200 e₂ in
    (e₁.ctl_calls ≡ base.ctl_calls ++ ctl_del 4 ∷ [])
    × (e₂.ctl_calls ≡ e₁.ctl_calls)
    × (e₃.ctl_calls
        ≡ e₂.ctl_calls
          ++ (adding agrees epollin (insert 4 base.rescan_set_in)
              ++ adding agrees (epollin + epollout) base.rescan_set_out))
    × (rescans_empty e₃ ≡ true)
unfolding new_epoll
rescan_in_added_example =
    rescan_in_added agrees 10 90 200 4 base (omega arith) (omega arith) (omega arith) (omega arith)
      (omega arith)

destroyed_handler_gone_example :
    get_handler (destroy_handler (serve_all 1 empty (sets 7 3 ∷ sets 8 3 ∷ clears 8 ∷ [])) 3) 1 7
    ≢ some 3
destroyed_handler_gone_example = destroyed_handler_gone 1 3 7 (sets 7 3 ∷ sets 8 3 ∷ clears 8 ∷ [])

moved_handler_dangles_example :
    let r = set_handler empty 1 7 (some 3) in
    get_handler (destroy_handler (set_handler r 2 8 (some 3)) 3) 1 7 ≡ some 3
unfolding set_handler store ℕ_discrete
moved_handler_dangles_example =
    moved_handler_dangles (set_handler empty 1 7 (some 3)) 1 2 3 7 8 (λ p. absurd (omega arith))
      refl
