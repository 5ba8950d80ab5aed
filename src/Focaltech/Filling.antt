-- ===== src/Focaltech/Filling.antt =====
-- The FocalTech touchpad as a handler with a frame: packets of six bytes.
use debugging.Common.{ℕ, ◌<◌, ◌≡◌, true, refl, arith}
use debugging.Kernel.{Bytes}
use debugging.Psmouse.Receive.Framed.{Frame, IsFramed}
use debugging.Focaltech.{
  Data, process_byte, process_packet, process_touch_packet, process_abs_packet, process_rel_packet,
  report_state,
}

abbrev pub frame : Frame Data
frame = record {
  last = λ p. 5;
  pktsize = 6;
  accepts = λ p. true;
  step = λ now p s. process_packet p s;
  report = λ now p s. report_state (process_packet p s);
}

-- The packet is read in its six bytes only.
process_packet-same :
    (p q : Bytes) (s : Data)
    → ((i : ℕ) → i < 6 → p i ≡ q i)
    → process_packet p s ≡ process_packet q s
unfolding process_packet process_touch_packet process_abs_packet process_rel_packet
process_packet-same p q s same =
    rw
      (
        same 0 (omega arith),
        same 1 (omega arith),
        same 2 (omega arith),
        same 3 (omega arith),
        same 4 (omega arith),
        same 5 (omega arith),
      )
      refl

pub process_byte-IsFramed : IsFramed (λ now. process_byte) frame
unfolding process_byte
process_byte-IsFramed = record {
  fits = λ p. omega arith;
  asks = λ now k p m a below counted sized holds. ground arith;
  full = λ now p m a counted sized holds.
      (m.packet, rw counted (rw (process_packet-same m.packet p m.private holds) refl));
}
