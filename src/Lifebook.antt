-- ===== src/Lifebook.antt =====
-- trackpoint-lost/lifebook.c: the touchscreen of a Fujitsu LifeBook, with a pointing stick on the same
-- port. Positions come in packets of three or of six bytes, by the machine, and the movements of the
-- stick in standard packets. The children hold the commands and the theorems.
mod Examples
pub mod Setup
pub mod Framing
pub mod Encoding
pub mod Stream
pub mod Sync
use debugging.Common.{
  Bool, true, false, not, ℕ, ◌+◌, ◌-◌, ◌*◌, ◌/◌, ◌%◌, ◌^◌, List, [], ◌∷◌, ◌++◌, Option, none, some,
  ◌==◌, ◌&&◌, ◌||◌, if◌then◌else◌,
}
use debugging.Common.Int.{pos}
use debugging.Common.Bits.{bit}
use debugging.Kernel.{
  Bytes, Effect, Button, Axis, input, second_input, wakeup, reconnect, queue_resync,
}
use debugging.Psmouse.{Psmouse, Handler, Ret, emit}
use debugging.Psmouse.Report.{
  key, abs, sync, report_standard_buttons, report_standard_motion, report_standard_packet,
}

-- struct lifebook_data, or NULL: whether there is a relative device.
pub record Data : Type 0 where
  pub has_dev2 : Bool

-- `packet[0] & 0x08`
abbrev pub is_relative : Bytes → Bool
is_relative packet = bit (packet 0) 3

-- The reports of psmouse-base.c, on the second device.
abbrev pub on_second : List Effect → List Effect
on_second [] = []
on_second (input e ∷ es) = second_input e ∷ on_second es
on_second (second_input e ∷ es) = second_input e ∷ on_second es
on_second (wakeup ∷ es) = wakeup ∷ on_second es
on_second (reconnect ∷ es) = reconnect ∷ on_second es
on_second (queue_resync ∷ es) = queue_resync ∷ on_second es

-- `good ? PSMOUSE_GOOD_DATA : PSMOUSE_BAD_DATA`
abbrev pub good_or_bad : Bool → Ret
good_or_bad good = if good then Ret.good_data else Ret.bad_data

-- The tests on the bits of a packet of six bytes.
abbrev pub first_fits : Bytes → Bool
first_fits p = p 0 / 8 == 0

abbrev pub third_fits : Bytes → Bool
third_fits p = p 2 / 16 % 4 == p 2 / 64

abbrev pub fourth_fits : Bytes → Bool
fourth_fits p = p 3 / 8 == 24

abbrev pub fifth_fits : Bytes → Bool
fifth_fits p = p 4 / 64 == p 2 / 64

abbrev pub sixth_fits : Bytes → Bool
sixth_fits p = p 5 / 16 % 4 == p 5 / 64

abbrev pub sixth_agrees : Bytes → Bool
sixth_agrees p = p 5 / 64 == p 1 / 64

-- The switch on the counter for a packet of six bytes; `none` where it breaks to the report.
unfoldable pub check_six : ℕ → Bytes → Option Ret
check_six pktcnt p =
    if pktcnt == 1
    then some (good_or_bad (first_fits p))
    else if pktcnt == 2
    then some Ret.good_data
    else if pktcnt == 3
    then some (good_or_bad (third_fits p))
    else if pktcnt == 4
    then some (good_or_bad (fourth_fits p))
    else if pktcnt == 5
    then some (good_or_bad (fifth_fits p))
    else if pktcnt == 6
    then (if not (sixth_fits p)
        then some Ret.bad_data
        else if not (sixth_agrees p)
        then some Ret.bad_data
        else none)
    else none

-- Both tests: a code with which the function returns, or none.
unfoldable pub check : Bool → ℕ → Bytes → Option Ret
check six pktcnt p =
    if is_relative p || not six
    then (if pktcnt == 3 then none else some Ret.good_data)
    else check_six pktcnt p

-- The report to the touchscreen.
unfoldable pub absolute_report : Bool → Bytes → List Effect
absolute_report six p =
    (if six
      then abs Axis.x (pos (p 1 % 64 * 64 + p 2 % 64))
        ∷ abs Axis.y (pos (4096 - (p 4 % 64 * 64 + p 5 % 64)))
        ∷ []
      else abs Axis.x (pos (p 1 + p 0 / 16 % 4 * 256))
        ∷ abs Axis.y (pos (1024 - (p 2 + p 0 / 64 % 4 * 256)))
        ∷ [])
    ++ (key Button.touch (bit (p 0) 2) ∷ sync ∷ [])

-- The report to the relative device.
unfoldable pub relative_report : Bytes → List Effect
relative_report p = on_second (
    (if is_relative p then report_standard_motion p else [])
    ++ (report_standard_buttons (p 0) ++ sync ∷ []))

-- The reports of a packet.
unfoldable pub packet_report : Bool → Bytes → Data → List Effect
packet_report six p s =
    (if is_relative p then [] else absolute_report six p)
    ++ (if s.has_dev2 then relative_report p else [])

conclude : Bool → Psmouse Data → Option Ret → Psmouse Data × Ret
conclude six m (some r) = (m, r)
conclude six m none = (emit m (packet_report six m.packet m.private), Ret.full_packet)

-- `lifebook_process_byte`; the first argument is lifebook_use_6byte_proto.
unfoldable pub process_byte : Bool → Handler Data
unfolding conclude
process_byte six m = conclude six m (check six m.pktcnt m.packet)
