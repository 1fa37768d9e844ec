-- ===== src/HostCx.antt =====
-- hostcx.hpp and hostcx.cpp: baseHostCX, a socket with a buffer in each direction. The buffers are
-- the lists of bytes that Buffer/Refine shows a buffer to be, with their capacity; `room` is the
-- capacity that a buffer gets when it asks for one. The Com is outside: a call of it that returns
-- nothing is an entry of `com_calls`, and what it returns is an argument.
pub mod Io
pub mod Out
pub mod Stream
pub mod Runs
pub mod Drain
pub mod Received
pub mod Fits
pub mod Counts
pub mod Sockets
mod Tests
use socle.Prelude.{
  ℕ, ◌-◌, Bool, true, false, not, ◌&&◌, Option, none, List, [], ◌∷◌, ◌++◌, ltb, ◌==◌, if◌then◌else◌,
  length, flushed, ℤ, pos, is_zero, is_positive,
}

pub record ByteBuffer : Type 0 where
  pub bytes : List ℕ
  pub capacity_ : ℕ

-- which Com a call goes to
pub data Side : Type 0 where
  this_com peercom : Side

pub data ComCall : Type 0 where
  set_monitor set_write_monitor rescan_read rescan_write : Side → ℤ → ComCall
  change_monitor_read unset_monitor remove_poll_handler com_shutdown com_close : ℤ → ComCall
  com_cleanup : ComCall

-- What a host context reads of its peer.
pub record Peer : Type 0 where
  pub com_status : Bool
  pub peer_socket : ℤ
  pub pending : ℕ

pub record HostCx : Type 0 where
  pub host_ : List ℕ
  pub port_ : List ℕ
  pub fds_ : ℤ
  pub closing_fds_ : ℤ
  pub error_ : Bool
  pub permanent_ : Bool
  pub last_reconnect_ : ℕ
  pub reconnect_delay_ : ℕ
  pub idle_delay_ : ℕ
  pub t_connected : ℕ
  pub w_activity : ℕ
  pub r_activity : ℕ
  pub readbuf_ : ByteBuffer
  pub writebuf_ : ByteBuffer
  pub processed_in_total_ : ℕ
  pub processed_out_total_ : ℕ
  pub processed_in_ : ℕ
  pub processed_out_ : ℕ
  pub read_limit_ : Option ℕ
  pub auto_finish_ : Bool
  pub read_waiting_for_peercom_ : Bool
  pub write_waiting_for_peercom_ : Bool
  pub close_after_write_ : Bool
  pub opening_ : Bool
  pub peer_ : Option Peer
  pub has_parent_proxy : Bool
  pub rescan_out_flag_ : Bool
  pub com_not_ready_counter : ℕ
  pub meter_read_count : ℕ
  pub meter_write_count : ℕ
  pub meter_read_bytes : ℕ
  pub meter_write_bytes : ℕ
  pub com_calls : List ComCall

-- `params_t`, at the values that it starts with
abbrev pub buffsize : ℕ
buffsize = 2048

abbrev pub max_buffsize : ℕ
max_buffsize = 2097152

abbrev pub write_full : ℕ
write_full = 200000

abbrev pub com_not_ready_slowdown : ℕ
com_not_ready_slowdown = 20

abbrev pub fast_copy_start : ℕ
fast_copy_start = 20480

abbrev pub size : ByteBuffer → ℕ
size b = length b.bytes

abbrev pub flush_bytes : ℕ → ByteBuffer → ByteBuffer
flush_bytes n b = record b { bytes = flushed n b.bytes }

abbrev pub call : ComCall → HostCx → HostCx
call c cx = record cx { com_calls = cx.com_calls ++ c ∷ [] }

-- A connected context without peer, before the first byte: what the constructor for a socket makes
-- at the time `now`, with `room` for the buffers.
unfoldable pub host_cx : (ℕ → ℕ) → ℤ → ℕ → HostCx
host_cx room s now = record {
  host_ = [];
  port_ = [];
  fds_ = s;
  closing_fds_ = pos 0;
  error_ = false;
  permanent_ = false;
  last_reconnect_ = 0;
  reconnect_delay_ = 7;
  idle_delay_ = 3600;
  t_connected = now;
  w_activity = now;
  r_activity = now;
  readbuf_ = record { bytes = []; capacity_ = room buffsize };
  writebuf_ = record { bytes = []; capacity_ = room buffsize };
  processed_in_total_ = 0;
  processed_out_total_ = 0;
  processed_in_ = 0;
  processed_out_ = 0;
  read_limit_ = none;
  auto_finish_ = true;
  read_waiting_for_peercom_ = false;
  write_waiting_for_peercom_ = false;
  close_after_write_ = false;
  opening_ = true;
  peer_ = none;
  has_parent_proxy = false;
  rescan_out_flag_ = false;
  com_not_ready_counter = 0;
  meter_read_count = 0;
  meter_write_count = 0;
  meter_read_bytes = 0;
  meter_write_bytes = 0;
  com_calls = [];
}

-- `opening(bool)`
unfoldable pub opening : Bool → ℕ → HostCx → HostCx
opening true now cx = record cx {
  opening_ = true;
  t_connected = now;
  w_activity = now;
  r_activity = now;
}
opening false now cx = record cx { opening_ = false }

unfoldable pub opening_timeout : HostCx → ℕ → Bool
opening_timeout cx now =
    if not cx.opening_ then false else ltb cx.reconnect_delay_ (now - cx.t_connected)

unfoldable pub idle_timeout : HostCx → ℕ → Bool
idle_timeout cx now =
    ltb cx.idle_delay_ (now - cx.w_activity)
    && not (now - cx.w_activity == 0)
    && (ltb cx.idle_delay_ (now - cx.r_activity) && not (now - cx.r_activity == 0))

abbrev pub reduced : HostCx → Bool
reduced cx = length cx.host_ == 0 && length cx.port_ == 0

-- `connect`, with the descriptor that the Com returns and GLOBAL_IO_BLOCKING
unfoldable pub connect : ℤ → Bool → ℕ → HostCx → ℤ × HostCx
unfolding opening
connect fd blocking now cx =
    let cx' = record (opening true now cx) { fds_ = fd; error_ = false } in
    (fd, if blocking then opening false now cx' else cx')

-- What `unhandle` calls of the Com.
abbrev pub unhandled : HostCx → List ComCall
unhandled cx =
    if not (is_zero cx.closing_fds_)
    then unset_monitor cx.closing_fds_ ∷ remove_poll_handler cx.closing_fds_ ∷ []
    else if not (is_zero cx.fds_)
    then unset_monitor cx.fds_ ∷ remove_poll_handler cx.fds_ ∷ []
    else []

unfoldable pub unhandle : HostCx → HostCx
unhandle cx = record cx { com_calls = cx.com_calls ++ unhandled cx }

unfoldable pub shutdown : HostCx → HostCx
unfolding unhandle
shutdown cx =
    if not (is_zero cx.fds_)
    then (let cx' = record cx { has_parent_proxy = false; closing_fds_ = cx.fds_ } in
        record (unhandle (call (com_shutdown cx.fds_) cx')) { fds_ = pos 0 })
    else record cx { has_parent_proxy = false }

abbrev pub should_reconnect_now : HostCx → ℕ → Bool
should_reconnect_now cx now = ltb cx.reconnect_delay_ (now - cx.last_reconnect_) && not (reduced cx)

unfoldable pub reconnect : ℤ → Bool → ℕ → HostCx → Bool × HostCx
reconnect fd blocking now cx =
    if should_reconnect_now cx now && cx.permanent_
    then (true, record (connect fd blocking now (shutdown cx)).1 { last_reconnect_ = now })
    else if not cx.permanent_
    then (false, cx)
    else if reduced cx
    then (false, record cx { last_reconnect_ = now })
    else (false, cx)

abbrev pub closing : ℤ → List ComCall
closing s = if is_positive s then remove_poll_handler s ∷ com_close s ∷ [] else []

-- the destructor: what it calls of the Com
unfoldable pub destroy : HostCx → HostCx
destroy cx =
    let cx' = call com_cleanup cx in
    record cx' { com_calls = cx'.com_calls ++ (closing cx.fds_ ++ closing cx.closing_fds_) }
