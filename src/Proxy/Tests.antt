-- ===== src/Proxy/Tests.antt =====
-- The theorems on a proxy with two contexts on the left side, one on the right side, and two
-- delayed ones.
use socle.Prelude.{
  ℕ, zero, suc, ◌<◌, ◌≡◌, refl, true, false, not, none, some, [], ◌∷◌, ◌++◌, arith, ltb, pos,
}
use socle.Epoll.Sets.{find}
use socle.HostCx.{HostCx, size, host_cx}
use socle.HostCx.Io.{write_waiting_for_peercom}
use socle.HostCx.Out.{write, process, watch, written, all_out, all_in}
use socle.Proxy.{left, Context, Outside, BaseProxy, at, put_context}
use socle.Proxy.Closing.{left_contexts, right_contexts, IsClosed, shutdown_drops_all}
use socle.Proxy.Delayed.{waits_for_peer, kept_if, delayed_accepted}
use socle.Proxy.Forgets.{neck_forgets}
use socle.Proxy.Handlers.{dont_read, after_wrt, handle_cx_write, handle_cx_read_once}
use socle.Proxy.Necks.{write_once_neck}
use socle.Proxy.Paused.{reads_paused}
use socle.Proxy.Rounds.{each_cx, accept_from}
use socle.Proxy.Sides.{ladd, shutdown_proxy, lsize, rsize}
use socle.Proxy.Writes.{own_neck, stop_neck, adjust_neck, write_part, handle_cx_write_once}

abbrev connected : HostCx
unfolding host_cx
connected = host_cx (λ n. n) (pos 7) 10

abbrev with_bytes : HostCx
with_bytes = record connected { writebuf_ = record { bytes = 1 ∷ 2 ∷ []; capacity_ = 8 } }

abbrev one_byte : HostCx
one_byte = record connected { writebuf_ = record { bytes = 3 ∷ []; capacity_ = 8 } }

abbrev waiting : HostCx
waiting = record connected { read_waiting_for_peercom_ = true }

abbrev context : HostCx → Context
context h = record {
  cx = h;
  peer = none;
  forced_read_ = false;
  forced_write_ = false;
  forced_read_on_write_ = false;
  forced_write_on_read_ = false;
  forced_read_always_ = false;
  forced_write_always_ = false;
}

abbrev behind : ℕ → Context
behind zero = context with_bytes
behind (suc (suc zero)) = record (context waiting) { peer = some 0 }
behind (suc (suc (suc (suc zero)))) = context one_byte
behind n = context connected

abbrev proxy : BaseProxy
proxy = record {
  left_sockets = 0 ∷ 4 ∷ [];
  right_sockets = 1 ∷ [];
  left_bind_sockets = [];
  right_bind_sockets = [];
  left_pc_cx = [];
  right_pc_cx = [];
  left_delayed_accepts = 2 ∷ 3 ∷ [];
  right_delayed_accepts = [];
  trashcan = [];
  contexts = behind;
  new_pointer = 5;
  new_raw_ = false;
  dead_ = false;
  error_on_left_read = false;
  error_on_right_read = false;
  error_on_left_write = false;
  error_on_right_write = false;
  write_left_neck_ = false;
  write_right_neck_ = true;
  last_read = 0;
  last_write = 0;
  last_tick_ = 0;
  proxy_calls = [];
}

-- Each socket takes one byte of a write and has one byte to read.
abbrev world : Outside
world = record {
  answers = λ i. record {
    com_status = false;
    com_error = λ h. false;
    can_read = true;
    can_write = true;
    readset = true;
    writeset = true;
    new_message = false;
    io_read = λ n. some (9 ∷ []);
    io_write = λ bs. pos 1;
    connect_fd = pos 8;
    accept_fd = pos 9;
    translate_socket = λ s. s;
    resolved_src = ([], []);
  };
  process_in = all_in;
  process_out = all_out;
  room = λ n. n;
  now = 12;
  blocking = false;
  poll_result = pos 1;
  has_mutex = λ s. true;
}

shutdown_drops_all_example :
    let p' = shutdown_proxy proxy in
    (p'.trashcan ≡ proxy.trashcan ++ (left_contexts proxy ++ right_contexts proxy))
    × (lsize p' ≡ 0)
    × (rsize p' ≡ 0)
    × IsClosed (p'.contexts 1)
unfolding find
shutdown_drops_all_example = shutdown_drops_all proxy 1 refl

delayed_accepted_example :
    let (rest, p') = accept_from world (ladd world) (2 ∷ 3 ∷ []) proxy in
    (rest ≡ kept_if (waits_for_peer world proxy) (2 ∷ 3 ∷ []))
    × (p'.left_sockets
        ≡ proxy.left_sockets ++ kept_if (λ i. not (waits_for_peer world proxy i)) (2 ∷ 3 ∷ []))
delayed_accepted_example = delayed_accepted world (2 ∷ 3 ∷ []) proxy

reads_paused_example :
    let q = each_cx (handle_cx_read_once world left) (0 ∷ 4 ∷ []) proxy in
    ((at q 0).readbuf_ ≡ (at proxy 0).readbuf_)
    × (q.last_read ≡ proxy.last_read)
    × (q.write_left_neck_ ≡ proxy.write_left_neck_)
    × (q.write_right_neck_ ≡ proxy.write_right_neck_)
reads_paused_example = reads_paused world left (0 ∷ 4 ∷ []) proxy 0 refl

write_once_neck_example :
    let q = (handle_cx_write_once world left 0 proxy).1 in
    (own_neck left q ≡ ltb 0 (size (at q 0).writebuf_)) × (dont_read left q ≡ dont_read left proxy)
unfolding host_cx write_waiting_for_peercom handle_cx_write_once write_part handle_cx_write
    after_wrt write process put_context
write_once_neck_example = write_once_neck world left 0 proxy refl refl (omega arith) refl

neck_forgets_example :
    let q = (handle_cx_write_once world left 4 proxy).1 in
    (own_neck left q ≡ false) × (0 < size (at q 0).writebuf_)
unfolding find host_cx write_waiting_for_peercom handle_cx_write_once write_part handle_cx_write
    after_wrt write process put_context adjust_neck written watch stop_neck
neck_forgets_example =
    neck_forgets world 4 0 refl left proxy refl refl (omega arith) (omega arith) refl refl
