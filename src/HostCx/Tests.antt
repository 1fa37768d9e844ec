-- ===== src/HostCx/Tests.antt =====
-- The theorems on a host context with socket 7, in the middle of its work.
use socle.Prelude.{
  ℕ, zero, suc, ◌<◌, ◌≡◌, refl, true, false, Option, none, some, List, [], ◌∷◌, ◌++◌, arith, length,
  drop, ℤ, pos,
}
use socle.HostCx.{HostCx, size, unhandle, shutdown, reconnect, destroy}
use socle.HostCx.Counts.{HasSeen, write_unseen}
use socle.HostCx.Drain.{write_each, MakesProgress, write_each_drains}
use socle.HostCx.Fits.{HasRoom, Rooms, IsBounded, run_fits}
use socle.HostCx.Io.{
  read, read_waiting_for_peercom, write_waiting_for_peercom, finish, max_bytes_left, grow_buffer,
  after_read, read_received, to_write, to_write_buffer,
}
use socle.HostCx.Out.{write, process, offered, watch, written, all_out, all_in}
use socle.HostCx.Received.{Reads, got_bytes, read-received, read_again_loses}
use socle.HostCx.Runs.{
  Event, to_writes, moves, writes, reads, waits, step, run, appended, run_in_order,
}
use socle.HostCx.Sockets.{closed, if_positive, reconnect_leaks}
use socle.HostCx.Stream.{sent, IsHonest}

abbrev exact : ℕ → ℕ
exact n = n

exact-Rooms : Rooms exact
exact-Rooms = record { enough = λ n. omega arith; bounded = λ n h. omega arith }

abbrev fresh : HostCx
fresh = record {
  host_ = 49 ∷ [];
  port_ = 50 ∷ [];
  fds_ = pos 7;
  closing_fds_ = pos 5;
  error_ = false;
  permanent_ = true;
  last_reconnect_ = 0;
  reconnect_delay_ = 7;
  idle_delay_ = 3600;
  t_connected = 0;
  w_activity = 0;
  r_activity = 0;
  readbuf_ = record { bytes = 1 ∷ 2 ∷ 3 ∷ []; capacity_ = 8 };
  writebuf_ = record { bytes = 10 ∷ 11 ∷ 12 ∷ []; capacity_ = 8 };
  processed_in_total_ = 2;
  processed_out_total_ = 2;
  processed_in_ = 2;
  processed_out_ = 0;
  read_limit_ = none;
  auto_finish_ = true;
  read_waiting_for_peercom_ = false;
  write_waiting_for_peercom_ = false;
  close_after_write_ = true;
  opening_ = false;
  peer_ = none;
  has_parent_proxy = true;
  rescan_out_flag_ = false;
  com_not_ready_counter = 0;
  meter_read_count = 1;
  meter_write_count = 0;
  meter_read_bytes = 3;
  meter_write_bytes = 0;
  com_calls = [];
}

-- A Com that takes one byte at a time.
abbrev one_byte : List ℕ → ℤ
one_byte [] = pos 0
one_byte (x ∷ xs) = pos 1

one_byte-IsHonest : IsHonest one_byte
one_byte-IsHonest [] = omega arith
one_byte-IsHonest (x ∷ xs) = omega arith

one_byte-MakesProgress : MakesProgress one_byte
one_byte-MakesProgress [] h = absurd (omega arith)
one_byte-MakesProgress (x ∷ xs) h = omega arith

abbrev two_bytes : ℕ → Option (List ℕ)
two_bytes zero = some []
two_bytes (suc zero) = some (8 ∷ [])
two_bytes (suc (suc n)) = some (8 ∷ 9 ∷ [])

two_bytes-IsBounded : IsBounded two_bytes
two_bytes-IsBounded zero = omega arith
two_bytes-IsBounded (suc zero) = omega arith
two_bytes-IsBounded (suc (suc n)) = omega arith

abbrev events : List Event
events =
    to_writes (20 ∷ [])
    ∷ writes one_byte 3
    ∷ reads all_in two_bytes 4
    ∷ waits true
    ∷ writes one_byte 5
    ∷ moves (record { bytes = 30 ∷ []; capacity_ = 1 })
    ∷ []

fresh-Reads : Reads fresh
fresh-Reads = record { running = refl; peer_open = refl; limit = refl; auto = refl }

fresh-HasSeen : HasSeen 2 fresh
fresh-HasSeen = record { running = refl; total = refl; new = omega arith; small = omega arith }

run_in_order_example :
    let (cx', wire') = run exact all_out (fresh, 0 ∷ []) events in
    wire' ++ cx'.writebuf_.bytes ≡ (0 ∷ []) ++ fresh.writebuf_.bytes ++ appended events
run_in_order_example =
    run_in_order exact all_out fresh (0 ∷ []) events (λ bs. refl)
      (one_byte-IsHonest, (one_byte-IsHonest, tt))

run_wire : (run exact all_out (fresh, 0 ∷ []) events).1 ≡ 0 ∷ 10 ∷ []
unfolding run step to_write sent write process offered written watch shutdown unhandle
    write_waiting_for_peercom read read_waiting_for_peercom finish read_received max_bytes_left
    grow_buffer after_read to_write_buffer
run_wire = refl

write_each_drains_example :
    let cx' = write_each (one_byte ∷ one_byte ∷ one_byte ∷ []) 9 fresh in
    (cx'.writebuf_.bytes ≡ [])
    × (fresh.close_after_write_ ≡ true → 0 < length fresh.writebuf_.bytes → cx'.fds_ ≡ pos 0)
write_each_drains_example =
    write_each_drains (one_byte ∷ one_byte ∷ one_byte ∷ []) 9 fresh refl
      (one_byte-MakesProgress, (one_byte-MakesProgress, (one_byte-MakesProgress, tt))) (omega arith)

read-received_example :
    (got : Option (List ℕ)) × (got ≡ two_bytes (max_bytes_left (finish fresh).1))
    × ((read exact all_in two_bytes 4 fresh).1.readbuf_.bytes
        ≡ drop fresh.processed_in_ fresh.readbuf_.bytes ++ got_bytes got)
read-received_example =
    read-received exact all_in two_bytes 4 fresh fresh-Reads (omega arith) (omega arith)
      (omega arith)

read_again_loses_example :
    let cx₁ = (read exact all_in (λ n. none) 4 fresh).1 in
    let cx₂ = (read exact all_in two_bytes 5 cx₁).1 in
    (cx₁.readbuf_.bytes ≡ drop fresh.processed_in_ fresh.readbuf_.bytes)
    × (0 < size cx₁.readbuf_)
    × (cx₂.readbuf_.bytes ≡ got_bytes (two_bytes (max_bytes_left (finish cx₁).1)))
read_again_loses_example =
    read_again_loses exact all_in two_bytes 4 5 fresh fresh-Reads (omega arith) (omega arith)
      (omega arith)

run_fits_example : HasRoom (run exact all_out (fresh, []) events).0.readbuf_
run_fits_example =
    run_fits exact exact-Rooms all_out fresh [] events (two_bytes-IsBounded, tt)
      (omega arith, omega arith)

write_unseen_example :
    let cx₁ = (write all_out one_byte 4 fresh).1 in
    let cx₂ = to_write exact (13 ∷ 14 ∷ []) cx₁ in
    offered (process (λ bs. (0, [])) cx₂) ≡ cx₁.writebuf_.bytes ++ 13 ∷ 14 ∷ []
write_unseen_example =
    write_unseen exact all_out (λ bs. (0, [])) one_byte 4 2 fresh (13 ∷ 14 ∷ []) fresh-HasSeen refl
      one_byte-IsHonest (omega arith)

abbrev full : HostCx
full = record fresh {
  readbuf_ = record { bytes = 1 ∷ 2 ∷ []; capacity_ = 2 };
  auto_finish_ = false;
}

reconnect_leaks_example :
    closed (destroy (reconnect (pos 8) false 100 fresh).1).com_calls
    ≡ closed fresh.com_calls ++ (if_positive (pos 8) ++ if_positive fresh.fds_)
reconnect_leaks_example = reconnect_leaks (pos 8) false 100 fresh refl refl refl
