-- ===== src/Epoll/Handlers.antt =====
-- common/epoll.hpp and common/epoll.cpp: which handler an epoller has for a socket, and the
-- destruction of handlers. Objects of the classes epoller and epoll_handler are numbers.
pub mod Gone
use socle.Prelude.{
  ℕ, Bool, false, not, Option, none, some, List, [], ◌∷◌, ◌==◌, if◌then◌else◌, nat_key, find_key,
  store, erase_key,
}
use socle.Epoll.{Epoll, clear_idle_watch}
use socle.Epoll.Sets.{erase, insert}

pub record Registry : Type 0 where
  -- by epoller: `poller`, and `handler_db` without the statistics
  pub poller : ℕ → Option Epoll
  pub handler_db : ℕ → List (ℕ × ℕ)
  -- by handler
  pub registrant : ℕ → Option ℕ
  pub registered_sockets : ℕ → List ℕ

abbrev pub update {ℓ} : {A : Type ℓ} → (ℕ → A) → ℕ → A → ℕ → A
update f k v j = if j == k then v else f j

abbrev pub get_handler : Registry → ℕ → ℕ → Option ℕ
get_handler r p s = find_key s (r.handler_db p)

-- The sets of the poller that a handler's socket leaves.
unfoldable pub forget : ℕ → Epoll → Epoll
forget s e =
    (clear_idle_watch s (record e {
      rescan_set_in = erase s e.rescan_set_in;
      rescan_set_out = erase s e.rescan_set_out;
    })).1

unfoldable pub clear_handler : Registry → ℕ → ℕ → Registry
clear_handler r p s = record r {
  handler_db = update r.handler_db p (erase_key s (r.handler_db p));
  poller = update r.poller p (elim (r.poller p) [ none ↦ none | some e ↦ some (forget s e) ]);
}

-- `handler_db[cur_socket] = h` for all sockets of a handler
unfoldable pub store_each : ℕ → List ℕ → List (ℕ × ℕ) → List (ℕ × ℕ)
store_each h [] m = m
store_each h (s ∷ ss) m = store_each h ss (store s h m)

abbrev pub is_other : ℕ → Option ℕ → Bool
is_other p none = false
is_other p (some q) = not (q == p)

-- `set_handler(check, h)`, where null is none
unfoldable pub set_handler : Registry → ℕ → ℕ → Option ℕ → Registry
set_handler r p s none = clear_handler r p s
set_handler r p s (some h) =
    let m = store s h (r.handler_db p) in
    let m' = if is_other p (r.registrant h) then store_each h (r.registered_sockets h) m else m in
    record r {
      handler_db = update r.handler_db p m';
      registrant = update r.registrant h (some p);
      registered_sockets = update r.registered_sockets h (insert s (r.registered_sockets h));
    }

abbrev pub is_handler : ℕ → Option ℕ → Bool
is_handler h none = false
is_handler h (some g) = g == h

-- The loop of the destructor of a handler.
unfoldable pub clear_each : Registry → ℕ → ℕ → List ℕ → Registry
clear_each r p h [] = r
clear_each r p h (s ∷ ss) =
    clear_each (if is_handler h (get_handler r p s) then clear_handler r p s else r) p h ss

-- `~epoll_handler`
unfoldable pub destroy_handler : Registry → ℕ → Registry
destroy_handler r h = elim (r.registrant h) [
  | none ↦ r
  | some p ↦ clear_each r p h (r.registered_sockets h)
]

unfoldable pub unregister_each : List (ℕ × ℕ) → (ℕ → Option ℕ) → ℕ → Option ℕ
unregister_each [] registrant = registrant
unregister_each ((s, h) ∷ m) registrant = unregister_each m (update registrant h none)

-- `~epoller`
unfoldable pub destroy_epoller : Registry → ℕ → Registry
destroy_epoller r p = record r { registrant = unregister_each (r.handler_db p) r.registrant }
