-- ===== src/Psmouse/Process.antt =====
-- psmouse-base.c: `psmouse_process_byte`, the handler of the standard protocols.
pub mod Laws
use debugging.Common.{
  Bool, ℕ, ◌+◌, ◌*◌, ◌<◌, ◌%◌, List, [], ◌∷◌, ◌++◌, bit_or, ltb, leb, ◌==◌, ◌&&◌, if◌then◌else◌,
}
use debugging.Common.Int.{ℤ, neg, pos, sub_ℕ, half}
use debugging.Common.Int
use debugging.Common.Bits.{bit, mask_bit}
use debugging.Kernel.{Bytes, Effect, Button, Axis, Headers, update}
use debugging.Psmouse.{Psmouse, PsmouseType, Handler, Ret, emit}
use debugging.Psmouse.Report.{key, rel, sync, report_standard_packet}

-- The value of `(s8) n`.
abbrev pub s8 : ℕ → ℤ
s8 n = if ltb n 128 then pos n else sub_ℕ n 256

-- `wheel` on the plain modes of the IntelliMouse Explorer, and its two extra buttons.
explorer_wheel : Headers → Bool → ℕ → List Effect
explorer_wheel h a4tech byte =
    let wheel = h.sign_extend32 byte 3 in
    (if a4tech && ltb 1 (Int.abs wheel)
      then rel Axis.hwheel (half wheel)
      else rel Axis.wheel (neg wheel))
    ∷ key Button.side (bit byte 4)
    ∷ key Button.extra (bit byte 5)
    ∷ []

-- The switch on `packet[3] & 0xC0`.
explorer_report : Headers → Bool → ℕ → List Effect
unfolding explorer_wheel
explorer_report h a4tech byte =
    let mode = mask_bit byte 7 + mask_bit byte 6 in
    if mode == 0x80
    then rel Axis.wheel (neg (h.sign_extend32 byte 5)) ∷ []
    else if mode == 0x40
    then rel Axis.hwheel (neg (h.sign_extend32 byte 5)) ∷ []
    else explorer_wheel h a4tech byte

-- What each type of protocol reports on its own, before the standard packet.
extra_report : Headers → Bool → PsmouseType → Bytes → List Effect
unfolding explorer_report
extra_report h a4tech PsmouseType.imps packet = rel Axis.wheel (neg (s8 (packet 3))) ∷ []
extra_report h a4tech PsmouseType.imex packet = explorer_report h a4tech (packet 3)
extra_report h a4tech PsmouseType.genps packet =
    rel Axis.wheel (neg (s8 (packet 3)))
    ∷ key Button.side (bit (packet 0) 6)
    ∷ key Button.extra (bit (packet 0) 7)
    ∷ []
extra_report h a4tech PsmouseType.thinkps packet = key Button.extra (bit (packet 0) 3) ∷ []
extra_report h a4tech PsmouseType.cortron packet = key Button.side (bit (packet 0) 3) ∷ []
extra_report h a4tech _ packet = []

-- How each type rewrites the packet.
adjust : PsmouseType → Bytes → Bytes
adjust PsmouseType.thinkps packet =
    update packet 1 (bit_or (packet 1) (mask_bit (packet 0) 6 * 2 % 256))
adjust PsmouseType.cortron packet = update packet 0 (bit_or (packet 0) 8)
adjust _ packet = packet

-- A full packet: the type's own reports, the packet rewritten, the extra buttons, the report.
full : {P : Type 0} → Headers → Psmouse P → Psmouse P × Ret
unfolding extra_report adjust
full h m =
    let type = m.protocol.type in
    let adjusted = adjust type m.packet in
    let packet = update adjusted 0 (bit_or (adjusted 0) m.extra_buttons) in
    (
      record m {
        packet = packet;
        effects =
            m.effects
            ++ (extra_report h m.a4tech_2wheels type m.packet
                ++ (report_standard_packet packet ++ sync ∷ []));
      },
      Ret.full_packet,
    )

unfoldable pub process_byte : {P : Type 0} → Headers → Handler P
unfolding full
process_byte h m = if ltb m.pktcnt m.pktsize then (m, Ret.good_data) else full h m
