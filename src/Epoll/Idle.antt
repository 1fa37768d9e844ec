-- ===== src/Epoll/Idle.antt =====
-- Idle sockets: a watched socket without events is reported as idle, at the latest in the third
-- round; a socket that is watched twice is reported in spite of its events.
use socle.Prelude.{
  ℕ, ◌+◌, ◌<◌, ◌≡◌, refl, ap, ◌∙◌, inl, inr, Bool, true, false, not, ◌||◌, some, List, [], ◌∷◌,
  arith, ◌==◌, Bool-cases, length, drop, pos,
}
use socle.Epoll.{
  clear, add, epollin, epollout, epoller_max_events, idle_timeout_ms, EpollEvent, Ctl, Status,
  Epoll, clear_idle_watch, click_timer_now, process_pre_wait_idles, enforced_to_inset, modify,
}
use socle.Epoll.Reports.{process_list, process_events-list, poll-round}
use socle.Epoll.Sets.{find, insert, find-erase, find-insert_all, find-empty}
use socle.Epoll.Wait.{
  Answer, ready, filled, add_each, process_pre_wait_rescans, process_event, before_wait, wait,
}

-- Is there an event of `s` in the list?
abbrev pub mentions : ℕ → List EpollEvent → Bool
mentions s [] = false
mentions s (ev ∷ evs) = s == ev.fd || mentions s evs

-- What concerns the idleness of `s`.
record Same (s : ℕ) (e e' : Epoll) : Type 0 where
  pre : find s e'.idle_watched_pre ≡ find s e.idle_watched_pre
  watched : find s e'.idle_watched ≡ find s e.idle_watched
  idle : find s e'.idle_set ≡ find s e.idle_set
  turn : e'.idle_round ≡ e.idle_round
  timer : e'.rescan_timer ≡ e.rescan_timer
  counter : e'.idle_counter ≡ e.idle_counter

Same-trans : (s : ℕ) (e e' e'' : Epoll) → Same s e e' → Same s e' e'' → Same s e e''
Same-trans s e e' e'' p q = record {
  pre = q.pre ∙ p.pre;
  watched = q.watched ∙ p.watched;
  idle = q.idle ∙ p.idle;
  turn = q.turn ∙ p.turn;
  timer = q.timer ∙ p.timer;
  counter = q.counter ∙ p.counter;
}

clear_idle_watch-Same : (s t : ℕ) (e : Epoll) → (s == t) ≡ false → Same s e (clear_idle_watch t e).1
unfolding clear_idle_watch
clear_idle_watch-Same s t e h =
    ground (arith, find-erase s t e.idle_watched_pre, find-erase s t e.idle_watched)

module _ (answer : List Ctl → Ctl → Status) where
  modify-Same : (s t mask : ℕ) (e : Epoll) → Same s e (modify answer t mask e).1
  unfolding modify add
  modify-Same s t mask e = ground arith

  process_event-Same :
      (s : ℕ) (ev : EpollEvent) (e : Epoll)
      → (s == ev.fd) ≡ false
      → Same s e (process_event answer ev e)
  unfolding process_event
  process_event-Same s ev e h =
      let e₁ = record e { in_set = insert ev.fd e.in_set } in
      let e₂ = record e { out_set = insert ev.fd e.out_set } in
      ground (
        arith,
        clear_idle_watch-Same s ev.fd e₁ h,
        clear_idle_watch-Same s ev.fd e₂ h,
        modify-Same s ev.fd epollin (clear_idle_watch ev.fd e₂).1,
      )

  process_list-Same :
      (s : ℕ) (evs : List EpollEvent) (e : Epoll)
      → mentions s evs ≡ false
      → Same s e (process_list answer evs e)
  unfolding process_list
  process_list-Same s [] e h = ground arith
  process_list-Same s (ev ∷ evs) e h =
      let e' = process_event answer ev e in
      Same-trans s e e' (process_list answer evs e') (process_event-Same s ev e (ground arith))
        (process_list-Same s evs e' (ground arith))

  add_each-Same :
      (s : ℕ) (ss : List ℕ) (mask : ℕ) (e : Epoll) → Same s e (add_each answer ss mask e)
  unfolding add_each add
  add_each-Same s [] mask e = ground arith
  add_each-Same s (t ∷ ss) mask e =
      let r = add_each-Same s ss mask (add answer t mask e).1 in
      record {
        pre = r.pre;
        watched = r.watched;
        idle = r.idle;
        turn = r.turn;
        timer = r.timer;
        counter = r.counter;
      }

  rescans-Same : (s : ℕ) (e : Epoll) → Same s e (process_pre_wait_rescans answer e)
  unfolding process_pre_wait_rescans
  rescans-Same s e =
      let e₁ = record (add_each answer e.rescan_set_in epollin e) { rescan_set_in = [] } in
      ground (
        arith,
        add_each-Same s e.rescan_set_in epollin e,
        add_each-Same s e₁.rescan_set_out (epollin + epollout) e₁,
      )

  -- A turn of the idle timer: what it does to the three sets of `s`.
  pub record Turns (s now : ℕ) (e e' : Epoll) : Type 0 where
    pub timer : e'.rescan_timer ≡ now
    pub turn : e'.idle_round ≡ not e.idle_round
    pub first :
        e.idle_round ≡ true
        → find s e'.idle_watched ≡ (find s e.idle_watched_pre || find s e.idle_watched)
    pub second :
        e.idle_round ≡ false
        → (find s e'.idle_set ≡ find s e.idle_watched)
          × (find s e'.idle_watched_pre ≡ find s e.idle_watched_pre)

  before_wait-Turns :
      (s now : ℕ) (e : Epoll)
      → e.rescan_timer + idle_timeout_ms < now
      → Turns s now e (before_wait answer now e)
  unfolding before_wait process_pre_wait_idles click_timer_now clear
  before_wait-Turns s now e late =
      let c = (click_timer_now now (clear e)).1 in
      let r = process_pre_wait_rescans answer c in
      let k = rescans-Same s c in
      ground (
        arith,
        k.pre,
        k.watched,
        k.idle,
        k.turn,
        k.timer,
        k.counter,
        find-insert_all s r.idle_watched_pre r.idle_watched,
        find-insert_all s r.idle_watched r.idle_set,
        find-empty s,
      )

  turned :
      (s : ℕ) (e e₁ e₂ e₃ : Epoll) (now₁ now₂ now₃ : ℕ)
      → find s e.idle_watched_pre ≡ true
      → Turns s now₁ e e₁
      → Turns s now₂ e₁ e₂
      → Turns s now₃ e₂ e₃
      → (find s e₂.idle_set || find s e₃.idle_set) ≡ true
  turned s e e₁ e₂ e₃ now₁ now₂ now₃ in_pre t₁ t₂ t₃ = elim (Bool-cases e.idle_round) [
    | inl r ↦
        let r₁ : e₁.idle_round ≡ false = t₁.turn ∙ ap not r in
        ground (arith, t₁.first r, (t₂.second r₁).0)
    | inr r ↦
        let r₁ : e₁.idle_round ≡ true = t₁.turn ∙ ap not r in
        let r₂ : e₂.idle_round ≡ false = t₂.turn ∙ ap not r₁ in
        ground (arith, (t₁.second r).1, t₂.first r₁, (t₃.second r₂).0)
  ]

  -- The state after a wait whose first answer is `evs`.
  abbrev pub after : ℕ → List EpollEvent → Epoll → Epoll
  after now evs e =
      enforced_to_inset (process_list answer evs (filled evs (before_wait answer now e)))

  pub wait-runs :
      (now : ℕ) (evs : List EpollEvent) (answers : List Answer) (e : Epoll)
      → length evs < epoller_max_events
      → wait answer now (ready evs ∷ answers) e ≡ some (pos (length evs), after now evs e)
  unfolding wait
  wait-runs now evs answers e lt =
      poll-round answer evs answers 0 (length evs) (before_wait answer now e) (omega arith)
      ∙ rw
          (process_events-list answer evs (drop (length evs) (before_wait answer now e).events) 0
            (filled evs (before_wait answer now e)) refl)
          (ground arith)

  pub after-Turns :
      (s now : ℕ) (evs : List EpollEvent) (e : Epoll)
      → e.rescan_timer + idle_timeout_ms < now
      → mentions s evs ≡ false
      → Turns s now e (after now evs e)
  unfolding enforced_to_inset
  after-Turns s now evs e late quiet =
      let b = before_wait answer now e in
      let t = before_wait-Turns s now e late in
      let k = process_list-Same s evs (filled evs b) quiet in
      record {
        timer = k.timer ∙ t.timer;
        turn = k.turn ∙ t.turn;
        first = λ h. k.watched ∙ t.first h;
        second = λ h. (k.idle ∙ (t.second h).0, k.pre ∙ (t.second h).1);
      }

  -- A socket that is watched for being idle, and whose waits have no event of it, is reported as idle
  -- by the second or the third of three waits that are each more than the idle timeout after the
  -- one before.
  pub idle_reported :
      (s now₁ now₂ now₃ : ℕ) (evs₁ evs₂ evs₃ : List EpollEvent) (e : Epoll)
      → find s e.idle_watched_pre ≡ true
      → mentions s evs₁ ≡ false
      → mentions s evs₂ ≡ false
      → mentions s evs₃ ≡ false
      → e.rescan_timer + idle_timeout_ms < now₁
      → now₁ + idle_timeout_ms < now₂
      → now₂ + idle_timeout_ms < now₃
      → length evs₁ < epoller_max_events
      → length evs₂ < epoller_max_events
      → length evs₃ < epoller_max_events
      → (e₁ e₂ e₃ : Epoll) × (wait answer now₁ (ready evs₁ ∷ []) e ≡ some (pos (length evs₁), e₁))
        × (wait answer now₂ (ready evs₂ ∷ []) e₁ ≡ some (pos (length evs₂), e₂))
        × (wait answer now₃ (ready evs₃ ∷ []) e₂ ≡ some (pos (length evs₃), e₃))
        × ((find s e₂.idle_set || find s e₃.idle_set) ≡ true)
  idle_reported s now₁ now₂ now₃ evs₁ evs₂ evs₃ e in_pre q₁ q₂ q₃ l₁ l₂ l₃ f₁ f₂ f₃ =
      let e₁ = after now₁ evs₁ e in
      let e₂ = after now₂ evs₂ e₁ in
      let e₃ = after now₃ evs₃ e₂ in
      let t₁ = after-Turns s now₁ evs₁ e l₁ q₁ in
      let t₂ = after-Turns s now₂ evs₂ e₁ (rw t₁.timer l₂) q₂ in
      let t₃ = after-Turns s now₃ evs₃ e₂ (rw t₂.timer l₃) q₃ in
      (
        e₁,
        e₂,
        e₃,
        wait-runs now₁ evs₁ [] e f₁,
        wait-runs now₂ evs₂ [] e₁ f₂,
        wait-runs now₃ evs₃ [] e₂ f₃,
        turned s e e₁ e₂ e₃ now₁ now₂ now₃ in_pre t₁ t₂ t₃,
      )
