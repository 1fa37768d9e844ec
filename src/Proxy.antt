-- ===== src/Proxy.antt =====
-- baseproxy.hpp and baseproxy.cpp: baseProxy, which moves bytes between the contexts of its left
-- and its right side. A pointer to a context is a number, and `contexts` holds what is behind it.
-- What the Com and the system answer in a round is the record `Outside`; a call of the proxy's own
-- Com, of a hook or of the monitor of a context is an entry of `proxy_calls`. `handle_last_status`,
-- which nothing reads, and the rate meters are left out.
pub mod Sides
pub mod Handlers
pub mod Monitors
pub mod Writes
pub mod Rounds
pub mod Closing
pub mod Pauses
pub mod Adjusted
pub mod Necks
pub mod Paused
pub mod Delayed
pub mod Others
pub mod Forgets
mod Tests
use socle.Prelude.{
  ℕ, Bool, true, false, ◌||◌, Option, none, some, List, [], ◌∷◌, ◌++◌, ◌==◌, if◌then◌else◌, ℤ,
}
use socle.HostCx.{Peer, HostCx, size, shutdown, reconnect}

-- The letters of a side: 'l', 'r', and 'x' and 'y' for the permanent connections of both sides.
pub data CxSide : Type 0 where
  left right left_pc right_pc : CxSide

-- A context with the pointer to its peer and the flags of its Com that force reads and writes. What
-- `peer_` of `cx` holds is not used: `live` has what the peer is at the time of a call.
pub record Context : Type 0 where
  pub cx : HostCx
  pub peer : Option ℕ
  pub forced_read_ : Bool
  pub forced_write_ : Bool
  pub forced_read_on_write_ : Bool
  pub forced_write_on_read_ : Bool
  pub forced_read_always_ : Bool
  pub forced_write_always_ : Bool

-- What the outside answers about one context in a round. `com_status` and `com_error` are of its
-- Com; the first stays the same in a round.
pub record Answers : Type 0 where
  pub com_status : Bool
  pub com_error : HostCx → Bool
  pub can_read : Bool
  pub can_write : Bool
  pub readset : Bool
  pub writeset : Bool
  pub new_message : Bool
  pub io_read : ℕ → Option (List ℕ)
  pub io_write : List ℕ → ℤ
  pub connect_fd : ℤ
  pub accept_fd : ℤ
  pub translate_socket : ℤ → ℤ
  pub resolved_src : List ℕ × List ℕ

pub record Outside : Type 0 where
  pub answers : ℕ → Answers
  pub process_in : List ℕ → ℕ
  pub process_out : List ℕ → ℕ × List ℕ
  pub room : ℕ → ℕ
  pub now : ℕ
  pub blocking : Bool
  pub poll_result : ℤ
  pub has_mutex : ℤ → Bool

pub data ProxyCall : Type 0 where
  on_error on_bytes on_message : CxSide → ℕ → ProxyCall
  on_new_raw : CxSide → ℤ → ProxyCall
  unblock : ℕ → ProxyCall
  com_set_monitor com_set_poll_handler : ℤ → ProxyCall
  cx_change_monitor : ℕ → Bool → Bool → ProxyCall
  cx_set_write_monitor : ℕ → ProxyCall
  cx_accept_socket cx_delay_socket : ℕ → ℤ → ProxyCall

pub record BaseProxy : Type 0 where
  pub left_sockets : List ℕ
  pub right_sockets : List ℕ
  pub left_bind_sockets : List ℕ
  pub right_bind_sockets : List ℕ
  pub left_pc_cx : List ℕ
  pub right_pc_cx : List ℕ
  pub left_delayed_accepts : List ℕ
  pub right_delayed_accepts : List ℕ
  pub trashcan : List ℕ
  pub contexts : ℕ → Context
  pub new_pointer : ℕ
  pub new_raw_ : Bool
  pub dead_ : Bool
  pub error_on_left_read : Bool
  pub error_on_right_read : Bool
  pub error_on_left_write : Bool
  pub error_on_right_write : Bool
  pub write_left_neck_ : Bool
  pub write_right_neck_ : Bool
  pub last_read : ℕ
  pub last_write : ℕ
  pub last_tick_ : ℕ
  pub proxy_calls : List ProxyCall

abbrev pub tell : ProxyCall → BaseProxy → BaseProxy
tell c p = record p { proxy_calls = p.proxy_calls ++ c ∷ [] }

abbrev pub at : BaseProxy → ℕ → HostCx
at p i = (p.contexts i).cx

-- What is read of a peer through the pointer to it.
abbrev pub peer_of : Outside → BaseProxy → Option ℕ → Option Peer
peer_of w p none = none
peer_of w p (some k) = some (record {
  com_status = (w.answers k).com_status;
  peer_socket = (at p k).fds_;
  pending = size (at p k).writebuf_;
})

-- the context behind a pointer, with its peer as it is
abbrev pub live : Outside → BaseProxy → ℕ → HostCx
live w p i = record (at p i) { peer_ = peer_of w p (p.contexts i).peer }

-- `error` of a context, which has a Com
abbrev pub has_error : Outside → ℕ → BaseProxy → Bool
has_error w i p = (at p i).error_ || (w.answers i).com_error (at p i)

unfoldable pub put_context : ℕ → Context → (ℕ → Context) → ℕ → Context
put_context i c cs j = if j == i then c else cs j

abbrev pub set_context : ℕ → Context → BaseProxy → BaseProxy
set_context i c p = record p { contexts = put_context i c p.contexts }

-- a change of the context behind a pointer
abbrev pub set_cx : ℕ → HostCx → BaseProxy → BaseProxy
set_cx i h p = set_context i (record (p.contexts i) { cx = h }) p

abbrev pub shutdown_cx : ℕ → BaseProxy → BaseProxy
shutdown_cx i p = set_cx i (shutdown (at p i)) p

-- Is it 'l' or 'x'?
abbrev pub is_left : CxSide → Bool
is_left left = true
is_left left_pc = true
is_left right = false
is_left right_pc = false

abbrev pub is_pc : CxSide → Bool
is_pc left = false
is_pc right = false
is_pc left_pc = true
is_pc right_pc = true

abbrev pub reconnect_cx : Outside → ℕ → BaseProxy → BaseProxy
reconnect_cx w i p = set_cx i (reconnect (w.answers i).connect_fd w.blocking w.now (at p i)).1 p

-- `on_left_error`, `on_right_error`, `on_left_pc_error` and `on_right_pc_error` of this class
unfoldable pub error_hook : Outside → CxSide → ℕ → BaseProxy → BaseProxy
error_hook w left i p = tell (on_error left i) p
error_hook w right i p = tell (on_error right i) p
error_hook w left_pc i p =
    let p' = tell (on_error left_pc i) p in if (at p' i).opening_ then p' else reconnect_cx w i p'
error_hook w right_pc i p = reconnect_cx w i (tell (on_error right_pc i) p)
