-- ===== src/Proxy/Monitors.antt =====
-- baseproxy.cpp: the monitors of a whole side, and pausing of its reads and writes.
use socle.Prelude.{ℕ, Bool, true, false, List, [], ◌∷◌, if◌then◌else◌}
use socle.HostCx.{HostCx}
use socle.Proxy.{cx_change_monitor, BaseProxy, tell, at, set_cx}

-- The argument that pauses, unpauses or leaves alone.
pub data Pause : Type 0 where
  keep pause unpause : Pause

abbrev pub paused : Pause → Bool → Bool
paused keep b = b
paused pause b = true
paused unpause b = false

abbrev pub pause_cx : Pause → Pause → HostCx → HostCx
pause_cx pause_read pause_write h = record h {
  read_waiting_for_peercom_ = paused pause_read h.read_waiting_for_peercom_;
  write_waiting_for_peercom_ = paused pause_write h.write_waiting_for_peercom_;
}

-- `change_monitor` where one of `ifread` and `ifwrite` is set, and `unset_monitor` where none is
unfoldable pub change_monitor_for_cx_vec :
    List ℕ → Bool → Bool → Pause → Pause → BaseProxy → BaseProxy
change_monitor_for_cx_vec [] ifread ifwrite pause_read pause_write p = p
change_monitor_for_cx_vec (i ∷ is) ifread ifwrite pause_read pause_write p =
    let p' = tell (cx_change_monitor i ifread ifwrite) p in
    change_monitor_for_cx_vec is ifread ifwrite pause_read pause_write
      (set_cx i (pause_cx pause_read pause_write (at p' i)) p')

unfoldable pub change_side_monitoring : Bool → Bool → Bool → Pause → Pause → BaseProxy → BaseProxy
change_side_monitoring of_left ifread ifwrite pause_read pause_write p =
    let normal = if of_left then p.left_sockets else p.right_sockets in
    let bound = if of_left then p.left_bind_sockets else p.right_bind_sockets in
    change_monitor_for_cx_vec bound ifread ifwrite pause_read pause_write
      (change_monitor_for_cx_vec normal ifread ifwrite pause_read pause_write p)
