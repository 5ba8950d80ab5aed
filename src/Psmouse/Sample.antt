-- ===== src/Psmouse/Sample.antt =====
-- Test data: an activated mouse of any type between two packets, for the runs of the drivers.
use debugging.Common.{ℕ, false, []}
use debugging.Kernel.{bytes}
use debugging.Psmouse.{Psmouse, PsmouseType, State}

abbrev pub sample : {P : Type 0} → P → PsmouseType → ℕ → Psmouse P
sample private type pktsize = record {
  private = private;
  protocol = record {
    type = type;
    maxproto = false;
    ignore_parity = false;
    try_passthru = false;
    smbus_companion = false;
  };
  packet = bytes [];
  badbyte = 0;
  pktcnt = 0;
  pktsize = pktsize;
  oob_data_type = 0;
  extra_buttons = 0;
  acks_disable_command = false;
  last = 0;
  out_of_sync_cnt = 0;
  num_resyncs = 0;
  state = State.activated;
  flags = 0;
  rate = 100;
  resolution = 200;
  resetafter = 5;
  resync_time = 0;
  a4tech_2wheels = false;
  effects = [];
}
