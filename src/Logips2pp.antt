-- ===== src/Logips2pp.antt =====
-- trackpoint-lost/logips2pp.c: the packets of Logitech's PS2++ mice, which carry wheels and more
-- buttons in packets that a standard mouse never sends. The children hold the detection and the
-- theorems.
mod Examples
pub mod Models
pub mod Detect
pub mod Encoding
pub mod Extended
pub mod Ending
use debugging.Common.{
  Bool, true, false, ℕ, ◌+◌, ◌*◌, ◌/◌, ◌%◌, ◌^◌, List, [], ◌∷◌, ◌++◌, bit_or, ltb, ◌==◌, ◌&&◌,
  if◌then◌else◌,
}
use debugging.Common.Int.{neg}
use debugging.Common.Bits.{bit}
use debugging.Kernel.{Bytes, Effect, Button, Axis, Headers, update}
use debugging.Psmouse.{Psmouse, Handler, Ret, emit}
use debugging.Psmouse.Report.{key, rel, sync, report_standard_buttons, report_standard_packet}

-- The test for an extended packet.
abbrev pub is_extended : Bytes → Bool
is_extended packet = bit (packet 0) 6 && (bit (packet 0) 3 && bit (packet 1) 1)

-- `(packet[1] >> 4) | (packet[0] & 0x30)`
abbrev pub packet_type : Bytes → ℕ
packet_type packet = packet 1 / 16 + packet 0 / 16 % 4 * 16

-- The three types of an extended packet.
abbrev pub mouse_extra : ℕ
mouse_extra = 0x0d

abbrev pub mouse_buttons : ℕ
mouse_buttons = 0x0e

abbrev pub touchpad_extra : ℕ
touchpad_extra = 0x0f

-- The switch on the type: its reports.
unfoldable pub extended_report : Headers → Bytes → List Effect
extended_report h packet =
    let type = packet_type packet in
    let byte = packet 2 in
    if type == mouse_extra
    then rel (if bit byte 7 then Axis.hwheel else Axis.wheel) (neg (h.sign_extend32 byte 3))
      ∷ key Button.side (bit byte 4)
      ∷ key Button.extra (bit byte 5)
      ∷ []
    else if type == mouse_buttons
    then key Button.side (bit byte 0)
      ∷ key Button.extra (bit byte 1)
      ∷ key Button.task (bit byte 2)
      ∷ key Button.back (bit byte 3)
      ∷ key Button.forward (bit byte 4)
      ∷ []
    else if type == touchpad_extra
    then rel (if bit byte 3 then Axis.hwheel else Axis.wheel) (neg (h.sign_extend32 (byte / 16) 3))
      ∷ []
    else []

-- The packet afterwards: the buttons of a touchpad stand in its last byte.
unfoldable pub adjusted : Bytes → Bytes
adjusted packet =
    if packet_type packet == touchpad_extra then update packet 0 (bit_or (packet 2) 8) else packet

-- `ps2pp_process_byte`
unfoldable pub process_byte : {P : Type 0} → Headers → Handler P
process_byte h m =
    if ltb m.pktcnt 3
    then (m, Ret.good_data)
    else if is_extended m.packet
    then (
      emit (record m { packet = adjusted m.packet })
          (extended_report h m.packet
            ++ (report_standard_buttons (adjusted m.packet 0) ++ sync ∷ [])),
      Ret.full_packet,
    )
    else (emit m (report_standard_packet m.packet ++ sync ∷ []), Ret.full_packet)
