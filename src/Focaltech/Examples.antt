-- ===== src/Focaltech/Examples.antt =====
-- Packets of a FocalTech touchpad, and the theorems about it at concrete packets.
use debugging.Common.{ℕ, ◌+◌, ◌-◌, ◌≡◌, ◌≢◌, true, false, [], ◌∷◌, refl, arith, All}
use debugging.Common.Int.{pos}
use debugging.Common.{List}
use debugging.Psmouse.{Psmouse, PsmouseType}
use debugging.Psmouse.Sample.{sample}
use debugging.Psmouse.Receive.{receive_bytes}
use debugging.Kernel.Observe.{inputs}
use debugging.Focaltech.{process_byte}
use debugging.Focaltech.Filling.{frame}
use debugging.Psmouse.Receive.Framed.{Arrival, IsReady, arrivals}
use debugging.Focaltech.Stream.{reports, receive_bytes-packets}
use debugging.Kernel.{linux_headers, linux_headers-IsLinux, Ps2, Bytes, bytes, Input, Axis, input}
use debugging.Psmouse.Report.{abs}
use debugging.Focaltech.{
  process_touch_packet, process_abs_packet, Data, slot_report, report_state, process_packet,
  process_packets, process_rel_packet, move_finger,
}
use debugging.Focaltech.Fingers.{process_packets-lifted, process_packets-limits}
use debugging.Focaltech.Position.{
  Position, encode, process_packet-position, report_state-IsWithin, IsWithin,
}
use debugging.Focaltech.Setup.{sized}

-- The fingers 0 and 2 touch; only 0 does; 2 comes back; both move.
abbrev two_down : Bytes
two_down = bytes (0x03 ∷ 0x05 ∷ 0 ∷ 0 ∷ 0 ∷ 0 ∷ [])

abbrev one_up : Bytes
one_up = bytes (0x03 ∷ 0x01 ∷ 0 ∷ 0 ∷ 0 ∷ 0 ∷ [])

abbrev both_move : Bytes
both_move = bytes (0x19 ∷ 1 ∷ 0xff ∷ 0x30 ∷ 2 ∷ 2 ∷ [])

abbrev pad : Data
pad = sized 1920 1280

abbrev position : Position
position = record { finger = 2; x = 700; y = 300; width = 4; pressed = true }

abbrev placed_pad : Data
placed_pad = process_packet (encode position) (process_packet two_down pad)

process_packet-position_example :
    let s' = process_packet (encode position) (process_packet two_down pad) in
    (slot_report s' 2
      ≡ input (Input.mt_slot 2)
        ∷ input (Input.mt_slot_state true)
        ∷ abs Axis.mt_position_x (pos 700)
        ∷ abs Axis.mt_position_y (pos ((process_packet two_down pad).y_max - 300))
        ∷ abs Axis.tool_width (pos 4)
        ∷ [])
    × (s'.pressed ≡ true)
    × ((j : ℕ) → j ≢ 2 → s'.fingers j ≡ (process_packet two_down pad).fingers j)
process_packet-position_example =
    process_packet-position position (process_packet two_down pad)
      (unfold process_packet process_touch_packet in (omega arith))
      (unfold process_packet process_touch_packet in refl)

process_packets-lifted_example :
    slot_report (process_packets (one_up ∷ two_down ∷ both_move ∷ []) placed_pad) 2
    ≡ input (Input.mt_slot 2) ∷ input (Input.mt_slot_state false) ∷ []
process_packets-lifted_example =
    process_packets-lifted 2 one_up (two_down ∷ both_move ∷ []) placed_pad (omega arith) refl refl
      (refl, (refl, tt))

process_packets-limits_example :
    ((process_packets (two_down ∷ both_move ∷ []) pad).x_max ≡ 1920)
    × ((process_packets (two_down ∷ both_move ∷ []) pad).y_max ≡ 1280)
process_packets-limits_example =
    process_packets-limits (two_down ∷ both_move ∷ []) pad (refl, (refl, tt))

report_state-IsWithin_example : All (IsWithin placed_pad) (report_state placed_pad)
report_state-IsWithin_example =
    report_state-IsWithin placed_pad
      (unfold process_packet process_touch_packet process_abs_packet in omega arith)
      (unfold process_packet process_touch_packet process_abs_packet in omega arith)

-- A relative packet of the finger 0 alone, whose last bytes are not 0, changes the size.
abbrev one_moves : Bytes
one_moves = bytes (0x19 ∷ 1 ∷ 1 ∷ 0x00 ∷ 3 ∷ 0xfe ∷ [])

process_rel_packet-size :
    ((process_rel_packet one_moves pad).x_max ≡ 1923)
    × ((process_rel_packet one_moves pad).y_max ≡ 1278)
unfolding process_rel_packet move_finger
process_rel_packet-size = (refl, refl)

-- A port that acknowledges every command, and gives the size.
abbrev port : Ps2 ℕ
port = record {
  command = λ d c p. record { device = d + 1; code = 0; param = bytes (0xaa ∷ 15 ∷ 10 ∷ []) };
  sendbyte = λ d c t. (d + 1, 0);
  uninit = bytes [];
}

abbrev pad_mouse : Psmouse Data
pad_mouse = sample pad PsmouseType.focaltech 6

abbrev touch_stream : List Arrival
touch_stream =
    record { packet = two_down; start = 10; gap = λ k. 1 }
    ∷ record { packet = encode position; start = 30; gap = λ k. 2 }
    ∷ []

receive_bytes-packets_example :
    let m' = receive_bytes linux_headers process_byte (arrivals frame touch_stream) pad_mouse in
    IsReady frame m'
    × (m'.private ≡ process_packets (two_down ∷ encode position ∷ []) pad)
    × (inputs m'.effects ≡ reports touch_stream pad)
receive_bytes-packets_example =
    receive_bytes-packets linux_headers linux_headers-IsLinux (omega arith) touch_stream pad_mouse
      (((λ k. omega arith), omega arith, refl), (((λ k. omega arith), omega arith, refl), tt))
      (record { active = refl; between = refl; sized = refl; no_idle_limit = refl })
