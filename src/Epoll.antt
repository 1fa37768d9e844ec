-- ===== src/Epoll.antt =====
-- common/epoll.hpp and common/epoll.cpp: struct epoll, the sets of sockets that the library keeps
-- around the system's epoll. A set of sockets is a list in which a socket stands once.
pub mod Sets
pub mod Wait
pub mod Reports
pub mod Idle
pub mod Watching
pub mod Handlers
mod Tests
use socle.Prelude.{
  ℕ, ◌+◌, ◌-◌, ◌/◌, ◌%◌, Bool, true, false, ◌&&◌, List, [], ◌∷◌, ◌++◌, ltb, ◌==◌, if◌then◌else◌,
  replicate,
}
use socle.Epoll.Sets.{insert_all, is_empty, erase, find, insert}

abbrev pub epollin : ℕ
epollin = 1

abbrev pub epollout : ℕ
epollout = 4

-- `EPOLLER_MAX_EVENTS`, `baseCom::rescan_msec` and `idle_timeout_ms` at their values
abbrev pub epoller_max_events : ℕ
epoller_max_events = 50

abbrev pub rescan_msec : ℕ
rescan_msec = 100

abbrev pub idle_timeout_ms : ℕ
idle_timeout_ms = 1000

pub record EpollEvent : Type 0 where
  pub fd : ℕ
  pub flags : ℕ

abbrev pub has_in : ℕ → Bool
has_in flags = flags % 2 == 1

abbrev pub has_out : ℕ → Bool
has_out flags = flags / 4 % 2 == 1

-- A call of epoll_ctl, and how it ended: -1 with EEXIST, with ENOENT or with another error.
pub data Ctl : Type 0 where
  ctl_add ctl_mod : ℕ → ℕ → Ctl
  ctl_del : ℕ → Ctl

pub data Status : Type 0 where
  success eexist enoent failure : Status

pub record Epoll : Type 0 where
  pub events : List EpollEvent
  pub hint_fd_ : ℕ
  pub auto_epollout_remove : Bool
  pub in_set : List ℕ
  pub out_set : List ℕ
  pub err_set : List ℕ
  pub enforce_in_set : List ℕ
  pub rescan_set_in : List ℕ
  pub rescan_set_out : List ℕ
  pub rescan_timer : ℕ
  pub idle_counter : ℕ
  pub idle_round : Bool
  pub idle_watched_pre : List ℕ
  pub idle_watched : List ℕ
  pub idle_set : List ℕ
  pub ctl_calls : List Ctl

-- A new object at the time `now`.
unfoldable pub new_epoll : ℕ → Epoll
new_epoll now = record {
  events = replicate epoller_max_events (record { fd = 0; flags = 0 });
  hint_fd_ = 0;
  auto_epollout_remove = true;
  in_set = [];
  out_set = [];
  err_set = [];
  enforce_in_set = [];
  rescan_set_in = [];
  rescan_set_out = [];
  rescan_timer = now;
  idle_counter = 0;
  idle_round = true;
  idle_watched_pre = [];
  idle_watched = [];
  idle_set = [];
  ctl_calls = [];
}

unfoldable pub set_idle_watch : ℕ → Epoll → Epoll
set_idle_watch s e = record e { idle_watched_pre = insert s e.idle_watched_pre }

unfoldable pub clear_idle_watch : ℕ → Epoll → ℕ × Epoll
clear_idle_watch s e =
    if find s e.idle_watched_pre
    then (1, record e { idle_watched_pre = erase s e.idle_watched_pre })
    else (
      if find s e.idle_watched then 1 else 0,
      record e { idle_watched = erase s e.idle_watched },
    )

-- `clear`, before each wait
unfoldable pub clear : Epoll → Epoll
clear e = record e { in_set = []; out_set = []; idle_set = []; err_set = [] }

unfoldable pub click_timer_now : ℕ → Epoll → Bool × Epoll
click_timer_now now e =
    let ms_diff = now - e.rescan_timer in
    if ltb rescan_msec ms_diff
    then (true, record e { rescan_timer = now; idle_counter = e.idle_counter + ms_diff })
    else (false, e)

unfoldable pub process_pre_wait_idles : Epoll → Epoll
process_pre_wait_idles e =
    if ltb idle_timeout_ms e.idle_counter
    then (if e.idle_round
        then record e {
          idle_counter = 0;
          idle_round = false;
          idle_watched = insert_all e.idle_watched_pre e.idle_watched;
          idle_watched_pre = [];
        }
        else record e {
          idle_counter = 0;
          idle_round = true;
          idle_set = insert_all e.idle_watched e.idle_set;
          idle_watched = [];
        })
    else e

unfoldable pub enforced_to_inset : Epoll → Epoll
enforced_to_inset e = record e {
  in_set = insert_all e.enforce_in_set e.in_set;
  enforce_in_set = [];
}

unfoldable pub enforce_in : ℕ → Epoll → Bool × Epoll
enforce_in s e =
    (true, if ltb 0 s then record e { enforce_in_set = insert s e.enforce_in_set } else e)

abbrev pub rescans_empty : Epoll → Bool
rescans_empty e = is_empty e.rescan_set_in && is_empty e.rescan_set_out

unfoldable pub cancel_rescan_in : ℕ → Epoll → ℕ × Epoll
cancel_rescan_in s e =
    if ltb 0 s
    then (
      if find s e.rescan_set_in then 1 else 0,
      record e { rescan_set_in = erase s e.rescan_set_in },
    )
    else (0, e)

unfoldable pub cancel_rescan_out : ℕ → Epoll → ℕ × Epoll
cancel_rescan_out s e =
    if ltb 0 s
    then (
      if find s e.rescan_set_out then 1 else 0,
      record e { rescan_set_out = erase s e.rescan_set_out },
    )
    else (0, e)

-- `answer` is how the system answers a call of epoll_ctl, after those before it.
module _ (answer : List Ctl → Ctl → Status) where
  abbrev pub ctl : Ctl → Epoll → Status × Epoll
  ctl c e = (answer e.ctl_calls c, record e { ctl_calls = e.ctl_calls ++ c ∷ [] })

  abbrev pub add_result : Status → Bool
  add_result success = true
  add_result eexist = true
  add_result s = false

  unfoldable pub add : ℕ → ℕ → Epoll → Bool × Epoll
  add s mask e = let (r, e') = ctl (ctl_add s mask) e in (add_result r, e')

  abbrev modified : Status → ℕ → ℕ → Epoll → Bool × Epoll
  modified success s mask e = (true, e)
  modified enoent s mask e = (false, (add s mask e).1)
  modified r s mask e = (false, e)

  unfoldable pub modify : ℕ → ℕ → Epoll → Bool × Epoll
  modify s mask e = let (r, e') = ctl (ctl_mod s mask) e in modified r s mask e'

  abbrev is_success : Status → Bool
  is_success success = true
  is_success s = false

  unfoldable pub del : ℕ → Epoll → Bool × Epoll
  del s e = let (r, e') = ctl (ctl_del s) e in (is_success r, e')

  -- `hint_socket(int)`
  unfoldable pub hint_socket : ℕ → Epoll → Bool × Epoll
  hint_socket s e =
      let e₁ = if ltb 0 e.hint_fd_ then (ctl (ctl_del e.hint_fd_) e).1 else e in
      let (r, e₂) = add s epollin e₁ in (r, if r then record e₂ { hint_fd_ = s } else e₂)

  unfoldable pub rescan_in : ℕ → ℕ → Epoll → Bool × Epoll
  rescan_in now s e =
      if ltb 0 s
      then (let e' = (del s e).1 in
          (
            true,
            record e' {
              rescan_timer = if is_empty e'.rescan_set_in then now else e'.rescan_timer;
              rescan_set_in = insert s e'.rescan_set_in;
            },
          ))
      else (false, e)

  unfoldable pub rescan_out : ℕ → ℕ → Epoll → Bool × Epoll
  rescan_out now s e =
      if ltb 0 s
      then (let e' = (del s e).1 in
          (
            true,
            record e' {
              rescan_timer = if is_empty e'.rescan_set_out then now else e'.rescan_timer;
              rescan_set_out = insert s e'.rescan_set_out;
            },
          ))
      else (false, e)
