-- ===== src/Epoll/Watching.antt =====
-- A socket that is watched twice, and the sockets whose monitoring was put off.
use mathlib.Core.List.{append_assoc, append-nil}
use socle.Prelude.{
  ℕ, ◌+◌, ◌≤◌, ◌<◌, ◌≡◌, refl, sym, ap, ◌∙◌, ◌⊎◌, inl, inr, true, false, some, List, [], ◌∷◌, ◌++◌,
  arith, same, pos,
}
use socle.Epoll.{
  clear, add, epollin, epollout, rescan_msec, idle_timeout_ms, EpollEvent, has_in, Ctl, ctl_add,
  ctl_del, Status, Epoll, clear_idle_watch, click_timer_now, process_pre_wait_idles,
  enforced_to_inset, rescans_empty, del, rescan_in,
}
use socle.Epoll.Idle.{after, wait-runs, after-Turns}
use socle.Epoll.Reports.{readable, process_event-events, process_list}
use socle.Epoll.Sets.{find, insert, find-insert, find-insert_all}
use socle.Epoll.Wait.{
  ready, filled, add_each, process_pre_wait_rescans, process_event, before_wait, wait,
}

module _ (answer : List Ctl → Ctl → Status) where
  early :
      (now : ℕ) (e : Epoll)
      → now ≤ e.rescan_timer + rescan_msec
      → before_wait answer now e ≡ clear e
  unfolding before_wait click_timer_now clear
  early now e h = ground arith

  event_leaves_watched :
      (ev : EpollEvent) (e : Epoll)
      → has_in ev.flags ≡ true
      → find ev.fd e.idle_watched_pre ≡ true
      → let e' = process_event answer ev e in
        (e'.idle_watched ≡ e.idle_watched)
        × (e'.idle_round ≡ e.idle_round)
        × (e'.rescan_timer ≡ e.rescan_timer)
  unfolding process_event clear_idle_watch
  event_leaves_watched ev e readable h = ground arith

  -- A socket that is on both lists of watched sockets, since it was watched again after a turn of
  -- the idle timer, is cleared from the first list only when an event of it comes: at the next
  -- turn it is reported as idle, though it was active since.
  pub active_reported :
      (now₁ now₂ : ℕ) (ev : EpollEvent) (e : Epoll)
      → find ev.fd e.idle_watched_pre ≡ true
      → find ev.fd e.idle_watched ≡ true
      → e.idle_round ≡ false
      → has_in ev.flags ≡ true
      → now₁ ≤ e.rescan_timer + rescan_msec
      → e.rescan_timer + idle_timeout_ms < now₂
      → (e₁ e₂ : Epoll) × (wait answer now₁ (ready (ev ∷ []) ∷ []) e ≡ some (pos 1, e₁))
        × (wait answer now₂ (ready [] ∷ []) e₁ ≡ some (pos 0, e₂))
        × (find ev.fd e₁.in_set ≡ true)
        × (find ev.fd e₂.idle_set ≡ true)
  unfolding enforced_to_inset process_list
  active_reported now₁ now₂ ev e in_pre in_watched turn is_in soon late =
      let e₁ = after answer now₁ (ev ∷ []) e in
      let f = filled (ev ∷ []) (before_wait answer now₁ e) in
      let b = early now₁ e soon in
      let k =
        event_leaves_watched ev f is_in
          (ap (λ x. find ev.fd x.idle_watched_pre) b ∙ unfold clear in in_pre) in
      let w₁ : find ev.fd e₁.idle_watched ≡ true =
        ap (find ev.fd) k.0 ∙ ap (λ x. find ev.fd x.idle_watched) b ∙ unfold clear in in_watched in
      let r₁ : e₁.idle_round ≡ false = k.1 ∙ ap (λ x. x.idle_round) b ∙ unfold clear in turn in
      let m₁ : e₁.rescan_timer ≡ e.rescan_timer =
        k.2 ∙ ap (λ x. x.rescan_timer) b ∙ unfold clear in refl in
      let t = after-Turns answer ev.fd now₂ [] e₁ (rw m₁ late) refl in
      (
        e₁,
        after answer now₂ [] e₁,
        wait-runs answer now₁ (ev ∷ []) [] e (omega arith),
        wait-runs answer now₂ [] [] e₁ (omega arith),
        find-insert_all ev.fd (process_event answer ev f).enforce_in_set
              (process_event answer ev f).in_set
            ∙ ground (
              arith,
              ap (find ev.fd) (process_event-events answer ev f).2,
              find-insert ev.fd ev.fd f.in_set,
            ),
        (t.second r₁).0 ∙ w₁,
      )

  -- The calls that add sockets with a mask.
  abbrev pub adding : ℕ → List ℕ → List Ctl
  adding mask [] = []
  adding mask (s ∷ ss) = ctl_add s mask ∷ adding mask ss

  add_each-calls :
      (ss : List ℕ) (mask : ℕ) (e : Epoll)
      → let e' = add_each answer ss mask e in
        (e'.ctl_calls ≡ e.ctl_calls ++ adding mask ss)
        × (e'.rescan_set_out ≡ e.rescan_set_out)
        × (e'.rescan_set_in ≡ e.rescan_set_in)
  unfolding add_each add
  add_each-calls [] mask e = (sym (append-nil e.ctl_calls), refl, refl)
  add_each-calls (s ∷ ss) mask e =
      let (calls, out, into) = add_each-calls ss mask (add answer s mask e).1 in
      (calls ∙ append_assoc e.ctl_calls (ctl_add s mask ∷ []) (adding mask ss), out, into)

  rescans-calls :
      (e : Epoll)
      → let e' = process_pre_wait_rescans answer e in
        (e'.ctl_calls
          ≡ e.ctl_calls
            ++ (adding epollin e.rescan_set_in ++ adding (epollin + epollout) e.rescan_set_out))
        × (rescans_empty e' ≡ true)
  unfolding process_pre_wait_rescans
  rescans-calls e =
      let e₁ = record (add_each answer e.rescan_set_in epollin e) { rescan_set_in = [] } in
      let (calls, out, _) = add_each-calls e.rescan_set_in epollin e in
      let (calls₂, out₂, into₂) = add_each-calls e₁.rescan_set_out (epollin + epollout) e₁ in
      (
        calls₂
            ∙ ap (λ cs. cs ++ adding (epollin + epollout) e₁.rescan_set_out) calls
            ∙ ap
                (λ ss.
                  e.ctl_calls ++ adding epollin e.rescan_set_in ++ adding (epollin + epollout) ss)
                out
            ∙ append_assoc e.ctl_calls (adding epollin e.rescan_set_in)
                (adding (epollin + epollout) e.rescan_set_out),
        ground (arith, into₂),
      )

  rescan_in-calls :
      (now s : ℕ) (e : Epoll)
      → 0 < s
      → let e₁ = (rescan_in answer now s e).1 in
        (e₁.ctl_calls ≡ e.ctl_calls ++ ctl_del s ∷ [])
        × (e₁.rescan_set_in ≡ insert s e.rescan_set_in)
        × (e₁.rescan_set_out ≡ e.rescan_set_out)
        × ((e₁.rescan_timer ≡ now) ⊎ (e₁.rescan_timer ≡ e.rescan_timer))
  unfolding rescan_in del
  rescan_in-calls now s e p = ground arith

  -- A wait before the rescan time asks the system for nothing, and forgets no socket.
  early-keeps :
      (now : ℕ) (e : Epoll)
      → now ≤ e.rescan_timer + rescan_msec
      → let e' = before_wait answer now e in
        (e'.ctl_calls ≡ e.ctl_calls)
        × (e'.rescan_set_in ≡ e.rescan_set_in)
        × (e'.rescan_set_out ≡ e.rescan_set_out)
        × (e'.rescan_timer ≡ e.rescan_timer)
  unfolding clear
  early-keeps now e soon = rw (early now e soon) (refl, refl, refl, refl)

  late-calls :
      (now : ℕ) (e : Epoll)
      → e.rescan_timer + rescan_msec < now
      → let e' = before_wait answer now e in
        (e'.ctl_calls
          ≡ e.ctl_calls
            ++ (adding epollin e.rescan_set_in ++ adding (epollin + epollout) e.rescan_set_out))
        × (rescans_empty e' ≡ true)
  unfolding before_wait process_pre_wait_idles click_timer_now clear
  late-calls now e late =
      let c = (click_timer_now now (clear e)).1 in ground (arith, rescans-calls c)

  -- A socket, not 0, whose reading is put off by `rescan_in`: the system is told to monitor it no
  -- more. A wait no later than the rescan time, 100 ms, after this call and after the start of the
  -- timer before it asks the system for nothing, before it waits. The next wait, after both times,
  -- asks it to monitor the socket again for reading, with all others that were put off, each for
  -- what it was put off for, and forgets them.
  pub rescan_in_added :
      (now soon now' s : ℕ) (e : Epoll)
      → 0 < s
      → soon ≤ now + rescan_msec
      → soon ≤ e.rescan_timer + rescan_msec
      → e.rescan_timer + rescan_msec < now'
      → now + rescan_msec < now'
      → let e₁ = (rescan_in answer now s e).1 in
        let e₂ = before_wait answer soon e₁ in
        let e₃ = before_wait answer now' e₂ in
        (e₁.ctl_calls ≡ e.ctl_calls ++ ctl_del s ∷ [])
        × (e₂.ctl_calls ≡ e₁.ctl_calls)
        × (e₃.ctl_calls
            ≡ e₂.ctl_calls
              ++ (adding epollin (insert s e.rescan_set_in)
                  ++ adding (epollin + epollout) e.rescan_set_out))
        × (rescans_empty e₃ ≡ true)
  rescan_in_added now soon now' s e p before before' after_timer after_call =
      let e₁ = (rescan_in answer now s e).1 in
      let e₂ = before_wait answer soon e₁ in
      let (asked, into, out, timer) = rescan_in-calls now s e p in
      let soon_enough : soon ≤ e₁.rescan_timer + rescan_msec = elim timer [
        | inl t ↦ omega (arith, t)
        | inr t ↦ omega (arith, t)
      ] in
      let (same, into₂, out₂, timer₂) = early-keeps soon e₁ soon_enough in
      let late : e₂.rescan_timer + rescan_msec < now' = elim timer [
        | inl t ↦ omega (arith, t, timer₂)
        | inr t ↦ omega (arith, t, timer₂)
      ] in
      let (again, forgotten) = late-calls now' e₂ late in
      (
        asked,
        same,
        again
            ∙ ap
                (λ ss.
                  e₂.ctl_calls
                  ++ (adding epollin ss ++ adding (epollin + epollout) e₂.rescan_set_out))
                (into₂ ∙ into)
            ∙ ap
                (λ ss.
                  e₂.ctl_calls
                  ++ (adding epollin (insert s e.rescan_set_in) ++ adding (epollin + epollout) ss))
                (out₂ ∙ out),
        forgotten,
      )
