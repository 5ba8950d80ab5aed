-- ===== src/Psmouse/Examples.antt =====
-- Concrete mice and movements of the PS/2 mouse core, for the runs in the children.
mod Stream
mod Ports
mod Connection
mod Mice
use debugging.Common.{
  ℕ, ◌+◌, ◌*◌, ◌^◌, ◌↔◌, ◌⊎◌, ◌==◌, ◌||◌, if◌then◌else◌, ◌≡◌, Bool, true, false, List, [], ◌∷◌,
  Option, none, some, inl, inr, refl, arith, ◌<◌, ◌≤◌, ◌++◌,
}
use debugging.Common.Int.{pos, ℤ}
use debugging.Kernel.{
  Ps2, Reply, bytes, linux_headers, linux_headers-IsLinux, Effect, Input, Button, Axis, input,
}
use debugging.Kernel.Observe.{inputs, reconnects}
use debugging.Psmouse.{Psmouse, Protocol, PsmouseType, State, Ret, Handler, ret_bat, ret_id, rank}
use debugging.Psmouse.Report.Packets.{
  Movement, report_standard_packet-press, standard_report, press,
}
use debugging.Psmouse.Report.{
  report_standard_packet, report_standard_buttons, report_standard_motion, sync,
}
use debugging.Psmouse.Process.{process_byte}
use debugging.Psmouse.Process.Laws.{process_byte-IsHandler}
use debugging.Psmouse.Receive.{
  receive_bytes, pre_receive_byte, Disposition, receive_byte, stored_byte, finish_byte, handle_byte,
}
use debugging.Psmouse.Receive.Packet.{Arrival, IsStreaming}
use debugging.Psmouse.Receive.Stream.{receive_bytes-arrivals, arrivals, expected}
use debugging.Psmouse.Receive.Invariant.{receive_bytes-IsSafe, IsBounded, IsSafe, IsHandler}
use debugging.Psmouse.Receive.Sync.{receive_bytes-reject}
use debugging.Psmouse.Receive.Oob.{pre_receive_byte-pair, out_of_band}
use debugging.Psmouse.Command.{
  poll, cmd_poll, cmd_reset_bat, cmd_getid, rates, set_rate, set_resolution, probe, reset,
}
use debugging.Psmouse.Command.Rate.{
  set_rate-IsGreatest, set_resolution-IsGreatest, IsGreatest, resolutions,
}
use debugging.Psmouse.Command.Probe.{probe_iff, reset_iff, IsMouseId}
use debugging.Psmouse.Resync.{World, resync, stop_parent}
use debugging.Psmouse.Resync.Outcome.{resync-Ending, Ending, Enables, validated}
use debugging.Psmouse.Resync.Recovery.{resync-Answers}
use debugging.Psmouse.Detect.{Probes, extensions}
use debugging.Psmouse.Detect.Limit.{extensions-IsAllowed, IsAllowed}

-- A TrackPoint that is activated, between two packets.
abbrev pub mouse : Psmouse ℕ
mouse = record {
  private = 0;
  protocol = record {
    type = PsmouseType.trackpoint;
    maxproto = false;
    ignore_parity = false;
    try_passthru = true;
    smbus_companion = false;
  };
  packet = bytes [];
  badbyte = 0;
  pktcnt = 0;
  pktsize = 3;
  oob_data_type = 0;
  extra_buttons = 0;
  acks_disable_command = false;
  last = 0;
  out_of_sync_cnt = 0;
  num_resyncs = 0;
  state = State.activated;
  flags = 0;
  rate = 100;
  resolution = 200;
  resetafter = 5;
  resync_time = 0;
  a4tech_2wheels = false;
  effects = [];
}

-- The left button, five counts to the right and three down.
abbrev pub movement : Movement
movement = record { left = true; right = false; middle = false; dx = pos 5; dy = ℤ.negsuc 2 }

abbrev pub arrival : Arrival
arrival = record { movement = movement; start = 1000; gap₁ = 2; gap₂ = 3 }

abbrev pub rejecting : Handler ℕ
rejecting m = (m, Ret.bad_data)
