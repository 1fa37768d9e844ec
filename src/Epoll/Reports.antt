-- ===== src/Epoll/Reports.antt =====
-- Which sockets a wait reports as readable, and the waits that leave the array of events.
use native.Mathlib.Decide.{dec_lt}
use socle.Prelude.{
  ℕ, zero, suc, ◌+◌, ◌≤◌, ◌<◌, ◌≡◌, refl, ap, ◌∙◌, subst, Bool, false, ◌&&◌, ◌||◌, none, some, List,
  [], ◌∷◌, ◌++◌, arith, ◌==◌, if◌then◌else◌, length, get_elem?, drop, length-append, length-drop,
  same, pos,
}
use socle.Epoll.{
  clear, add, epollin, epollout, epoller_max_events, EpollEvent, has_in, Ctl, Status, Epoll,
  clear_idle_watch, click_timer_now, process_pre_wait_idles, enforced_to_inset, modify,
}
use socle.Epoll.Sets.{find, insert, find-insert, find-insert_all, find-empty}
use socle.Epoll.Wait.{
  Answer, ready, filled, add_each, process_pre_wait_rescans, process_event, process_events, poll,
  before_wait, wait,
}
use socle.HostCx.{size}

-- Does an event of the list say that `s` can be read?
abbrev pub readable : ℕ → List EpollEvent → Bool
readable s [] = false
readable s (ev ∷ evs) = has_in ev.flags && s == ev.fd || readable s evs

get_elem?-length {ℓ} :
    {A : Type ℓ} (xs : List A) (i : ℕ) → i < length xs → (x : A) × (get_elem? xs i ≡ some x)
get_elem?-length [] i h = absurd (omega arith)
get_elem?-length (x ∷ xs) zero h = (x, refl)
get_elem?-length (x ∷ xs) (suc i) h = get_elem?-length xs i (omega arith)

get_elem?-none {ℓ} : {A : Type ℓ} (xs : List A) (i : ℕ) → length xs ≤ i → get_elem? xs i ≡ none
get_elem?-none [] i h = refl
get_elem?-none (x ∷ xs) zero h = absurd (omega arith)
get_elem?-none (x ∷ xs) (suc i) h = get_elem?-none xs i (omega arith)

get_elem?-drop {ℓ} :
    {A : Type ℓ} (xs : List A) (i : ℕ) (y : A) (ys : List A)
    → drop i xs ≡ y ∷ ys
    → (get_elem? xs i ≡ some y) × (drop (suc i) xs ≡ ys)
get_elem?-drop [] zero y ys h = absurd (cc)
get_elem?-drop [] (suc i) y ys h = absurd (cc)
get_elem?-drop (x ∷ xs) zero y ys h = (cc, cc)
get_elem?-drop (x ∷ xs) (suc i) y ys h = get_elem?-drop xs i y ys h

module _ (answer : List Ctl → Ctl → Status) where
  modify-events :
      (s mask : ℕ) (e : Epoll)
      → let e' = (modify answer s mask e).1 in
        (e'.events ≡ e.events)
        × (e'.in_set ≡ e.in_set)
        × (e'.enforce_in_set ≡ e.enforce_in_set)
        × (e'.idle_watched_pre ≡ e.idle_watched_pre)
        × (e'.idle_watched ≡ e.idle_watched)
  unfolding modify add
  modify-events s mask e = ground arith

  -- What the handling of an event leaves alone, and its entry in the set of readable sockets.
  pub process_event-events :
      (ev : EpollEvent) (e : Epoll)
      → let e' = process_event answer ev e in
        (e'.events ≡ e.events)
        × (e'.enforce_in_set ≡ e.enforce_in_set)
        × (e'.in_set ≡ (if has_in ev.flags then insert ev.fd e.in_set else e.in_set))
  unfolding process_event clear_idle_watch
  process_event-events ev e = ground (
    arith,
    modify-events ev.fd epollin
        (clear_idle_watch ev.fd (record e { out_set = insert ev.fd e.out_set })).1,
  )

  unfoldable pub process_list : List EpollEvent → Epoll → Epoll
  process_list [] e = e
  process_list (ev ∷ evs) e = process_list evs (process_event answer ev e)

  process_list-in_set :
      (s : ℕ) (evs : List EpollEvent) (e : Epoll)
      → let e' = process_list evs e in
        (find s e'.in_set ≡ (readable s evs || find s e.in_set))
        × (e'.enforce_in_set ≡ e.enforce_in_set)
  unfolding process_list
  process_list-in_set s [] e = (refl, refl)
  process_list-in_set s (ev ∷ evs) e = ground (
    arith,
    process_event-events ev e,
    process_list-in_set s evs (process_event answer ev e),
    find-insert s ev.fd e.in_set,
  )

  pub process_events-list :
      (evs rest : List EpollEvent) (i : ℕ) (e : Epoll)
      → drop i e.events ≡ evs ++ rest
      → process_events answer (length evs) i e ≡ some (process_list evs e)
  unfolding process_events process_list
  process_events-list [] rest i e h = refl
  process_events-list (ev ∷ evs) rest i e h =
      let (here, there) = get_elem?-drop e.events i ev (evs ++ rest) h in
      let e' = process_event answer ev e in
      let same : drop (suc i) e'.events ≡ evs ++ rest =
        ap (drop (suc i)) (process_event-events ev e).0 ∙ there in
      rw (here, process_events) (process_events-list evs rest (suc i) e' same)

  -- Past the end of the array there is no result.
  process_events-past :
      (n i : ℕ) (e : Epoll)
      → i ≤ length e.events
      → length e.events < i + n
      → process_events answer n i e ≡ none
  unfolding process_events
  process_events-past zero i e h lt = absurd (omega arith)
  process_events-past (suc n) i e h lt = elim (dec_lt i (length e.events)) [
    | yes in_range ↦
        let (ev, here) = get_elem?-length e.events i in_range in
        let e' = process_event answer ev e in
        let same = ap length (process_event-events ev e).0 in
        rw (here, process_events) (process_events-past n (suc i) e' (omega arith) (omega arith))
    | no out ↦ rw (get_elem?-none e.events i (omega arith), process_events) refl
  ]

  add_each-keeps :
      (ss : List ℕ) (mask : ℕ) (e : Epoll)
      → let e' = add_each answer ss mask e in
        (e'.events ≡ e.events) × (e'.enforce_in_set ≡ e.enforce_in_set) × (e'.in_set ≡ e.in_set)
  unfolding add_each add
  add_each-keeps [] mask e = (refl, refl, refl)
  add_each-keeps (s ∷ ss) mask e = add_each-keeps ss mask (add answer s mask e).1

  rescans-keep :
      (e : Epoll)
      → let e' = process_pre_wait_rescans answer e in
        (e'.events ≡ e.events) × (e'.enforce_in_set ≡ e.enforce_in_set) × (e'.in_set ≡ e.in_set)
  unfolding process_pre_wait_rescans
  rescans-keep e =
      let e₁ = record (add_each answer e.rescan_set_in epollin e) { rescan_set_in = [] } in
      ground (
        arith,
        add_each-keeps e.rescan_set_in epollin e,
        add_each-keeps e₁.rescan_set_out (epollin + epollout) e₁,
      )

  before_wait-keeps :
      (now : ℕ) (e : Epoll)
      → let e' = before_wait answer now e in
        (e'.events ≡ e.events) × (e'.enforce_in_set ≡ e.enforce_in_set) × (e'.in_set ≡ [])
  unfolding before_wait process_pre_wait_idles click_timer_now clear
  before_wait-keeps now e = ground (arith, rescans-keep (click_timer_now now (clear e)).1)

  -- A round of the loop of `wait`, with `n` events so far.
  pub poll-round :
      (evs : List EpollEvent) (answers : List Answer) (nfds n : ℕ) (e : Epoll)
      → nfds + length evs ≡ n
      → poll answer (ready evs ∷ answers) nfds e
        ≡ (elim (process_events answer n 0 (filled evs e)) [
          | none ↦ none
          | some e' ↦
              if length evs == epoller_max_events
              then poll answer answers n e'
              else some (pos n, enforced_to_inset e')
        ])
  unfolding poll
  poll-round evs answers nfds n e h =
      subst
        (λ (k : ℕ).
          poll answer (ready evs ∷ answers) nfds e
          ≡ (elim (process_events answer k 0 (filled evs e)) [
            | none ↦ none
            | some e' ↦
                if length evs == epoller_max_events
                then poll answer answers k e'
                else some (pos k, enforced_to_inset e')
          ]))
        h refl

  process_list-events : (evs : List EpollEvent) (e : Epoll) → (process_list evs e).events ≡ e.events
  unfolding process_list
  process_list-events [] e = refl
  process_list-events (ev ∷ evs) e =
      process_list-events evs (process_event answer ev e) ∙ (process_event-events ev e).0

  -- A wait whose first answer has fewer events than the array has places runs in bounds, returns
  -- their number, and a socket is in the set of readable ones exactly if an event says so or it was
  -- enforced since the last wait; the enforced sockets are used up.
  pub wait_reports :
      (now s : ℕ) (evs : List EpollEvent) (answers : List Answer) (e : Epoll)
      → length evs < epoller_max_events
      → (e' : Epoll) × (wait answer now (ready evs ∷ answers) e ≡ some (pos (length evs), e'))
        × (find s e'.in_set ≡ (find s e.enforce_in_set || readable s evs))
        × (e'.enforce_in_set ≡ [])
  unfolding wait enforced_to_inset
  wait_reports now s evs answers e lt =
      let e₁ = filled evs (before_wait answer now e) in
      let e₂ = process_list evs e₁ in
      let done =
        process_events-list evs (drop (length evs) (before_wait answer now e).events) 0 e₁ refl in
      let (found, enforced) = process_list-in_set s evs e₁ in
      let (same, kept, none_in) = before_wait-keeps now e in
      (
        enforced_to_inset e₂,
        poll-round evs answers 0 (length evs) (before_wait answer now e) (omega arith)
            ∙ rw done (ground arith),
        find-insert_all s e₂.enforce_in_set e₂.in_set
            ∙ ground (
              arith,
              found,
              ap (find s) enforced,
              ap (find s) kept,
              ap (find s) none_in,
              find-empty s,
            ),
        refl,
      )

  -- Where the first answer of the system fills the array of events, and the second one has at least
  -- one event and no more than the array has places, `wait` accesses the array past its end: such an
  -- access has no result.
  pub wait_overruns :
      (now : ℕ) (evs evs' : List EpollEvent) (answers : List Answer) (e : Epoll)
      → length e.events ≡ epoller_max_events
      → length evs ≡ epoller_max_events
      → 0 < length evs'
      → length evs' ≤ epoller_max_events
      → wait answer now (ready evs ∷ ready evs' ∷ answers) e ≡ none
  unfolding wait
  wait_overruns now evs evs' answers e size full some_more fits =
      let e₁ = filled evs (before_wait answer now e) in
      let e₂ = process_list evs e₁ in
      let done =
        process_events-list evs (drop (length evs) (before_wait answer now e).events) 0 e₁ refl in
      let filling : length (filled evs' e₂).events ≡ epoller_max_events =
        length-append evs' (drop (length evs') e₂.events)
        ∙ omega (
          arith,
          length-drop (length evs') e₂.events,
          ap length (process_list-events evs e₁),
          length-append evs (drop (length evs) (before_wait answer now e).events),
          length-drop (length evs) (before_wait answer now e).events,
          ap length (before_wait-keeps now e).0,
        ) in
      let past =
        process_events-past (length evs + length evs') 0 (filled evs' e₂) (omega arith)
          (omega arith) in
      poll-round evs (ready evs' ∷ answers) 0 (length evs) (before_wait answer now e) (omega arith)
      ∙ rw done (
          ground (
            arith,
            full,
            poll-round evs' answers (length evs) (length evs + length evs') e₂ refl,
            past,
          ))
