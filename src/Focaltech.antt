-- ===== src/Focaltech.antt =====
-- trackpoint-lost/focaltech.c: a FocalTech touchpad, which tracks five fingers and sends packets of
-- six bytes. The children hold the commands of its set-up and the theorems.
mod Examples
pub mod Fingers
pub mod Position
pub mod Setup
pub mod Filling
pub mod Stream
use debugging.Common.{
  ℕ, ◌+◌, ◌*◌, ◌-◌, ◌/◌, ◌%◌, ◌^◌, Bool, true, false, not, List, [], ◌∷◌, ◌++◌, ltb, leb, ◌==◌,
  ◌&&◌, ◌||◌, if◌then◌else◌,
}
use debugging.Common.Int.{pos}
use debugging.Common.Bits.{bit}
use debugging.Kernel.{Bytes, Effect, Input, Button, Axis, u32, s32, input}
use debugging.Psmouse.{Psmouse, Handler, Ret}
use debugging.Psmouse.Report.{key, abs, sync}

-- FOC_MAX_FINGERS
abbrev pub max_fingers : ℕ
max_fingers = 5

-- struct focaltech_finger_state
pub record Finger : Type 0 where
  pub active : Bool
  pub valid : Bool
  pub x : ℕ
  pub y : ℕ

-- struct focaltech_data with its struct focaltech_hw_state; `fingers` is read below 5.
pub record Data : Type 0 where
  pub x_max : ℕ
  pub y_max : ℕ
  pub fingers : ℕ → Finger
  pub width : ℕ
  pub pressed : Bool

abbrev pub put_finger : ℕ → Finger → Data → Data
put_finger i f s = record s { fingers = λ j. if j == i then f else s.fingers j }

-- `a - b` of two 32-bit unsigned integers.
abbrev pub sub_u32 : ℕ → ℕ → ℕ
sub_u32 a b = u32 (a + 2 ^ 32 - b)

-- `focaltech_report_state`, one slot. The positions are unsigned, and the argument of
-- `input_report_abs` is an int.
unfoldable pub slot_report : Data → ℕ → List Effect
slot_report s i =
    let f = s.fingers i in
    let active = f.active && f.valid in
    let clamped_x = if ltb s.x_max f.x then s.x_max else f.x in
    let clamped_y = if ltb s.y_max f.y then s.y_max else f.y in
    input (Input.mt_slot i)
    ∷ input (Input.mt_slot_state active)
    ∷ (if active
        then abs Axis.mt_position_x (s32 clamped_x)
          ∷ abs Axis.mt_position_y (s32 (sub_u32 s.y_max clamped_y))
          ∷ abs Axis.tool_width (pos s.width)
          ∷ []
        else [])

-- `focaltech_report_state`
unfoldable pub report_state : Data → List Effect
report_state s =
    slot_report s 0
    ++ (slot_report s 1
        ++ (slot_report s 2
            ++ (slot_report s 3
                ++ (slot_report s 4
                    ++ (input Input.mt_pointer_emulation
                        ∷ key Button.left s.pressed
                        ∷ sync
                        ∷ [])))))

-- One round of the loop of `focaltech_process_touch_packet`.
abbrev pub touched : Bool → Finger → Finger
touched down f =
    if down then record f { active = true } else record f { active = false; valid = false }

-- `focaltech_process_touch_packet`
unfoldable pub process_touch_packet : Bytes → Data → Data
process_touch_packet packet s = record s {
  pressed = bit (packet 0) 4;
  fingers =
      λ i. if ltb i max_fingers then touched (bit (packet 1) i) (s.fingers i) else s.fingers i;
}

-- `focaltech_process_abs_packet`. The index is unsigned: a field of 0 wraps and is refused as well.
unfoldable pub process_abs_packet : Bytes → Data → Data
process_abs_packet packet s =
    let field = packet 1 / 16 in
    if field == 0 || ltb max_fingers field
    then s
    else record (put_finger (field - 1)
        (record (s.fingers (field - 1)) {
          x = packet 1 % 16 * 2 ^ 8 + packet 2;
          y = packet 3 * 2 ^ 8 + packet 4;
          valid = true;
        })
        s) { pressed = bit (packet 0) 4; width = packet 5 / 16 }

-- `u += (s8) b` on a 32-bit unsigned integer.
abbrev pub add_s8 : ℕ → ℕ → ℕ
add_s8 u b = u32 (if ltb b 128 then u + b else u + b + 2 ^ 32 - 256)

-- `fingers[finger].x += …; fingers[finger].y += …` for the index `field - 1`, if that is below the
-- number of fingers. The index is a signed integer here: a field of 0 gives -1, which passes, and
-- `fingers[-1].x` and `fingers[-1].y` are the words `x_max` and `y_max` before the array.
unfoldable pub move_finger : ℕ → ℕ → ℕ → Data → Data
move_finger field dx dy s =
    if ltb max_fingers field
    then s
    else if field == 0
    then record s { x_max = add_s8 s.x_max dx; y_max = add_s8 s.y_max dy }
    else (let f = s.fingers (field - 1) in
        put_finger (field - 1) (record f { x = add_s8 f.x dx; y = add_s8 f.y dy }) s)

-- The two fields of a relative packet that name a finger.
abbrev pub first_field : Bytes → ℕ
first_field packet = packet 0 / 16 % 8

abbrev pub second_field : Bytes → ℕ
second_field packet = packet 3 / 16 % 8

-- `focaltech_process_rel_packet`
unfoldable pub process_rel_packet : Bytes → Data → Data
process_rel_packet packet s =
    let first =
      move_finger (first_field packet) (packet 1) (packet 2)
        (record s { pressed = not (packet 0 / 2 ^ 7 == 0) }) in
    move_finger (second_field packet) (packet 4) (packet 5) first

-- `focaltech_process_packet` up to its report: FOC_TOUCH, FOC_ABS and FOC_REL.
unfoldable pub process_packet : Bytes → Data → Data
process_packet packet s =
    let type = packet 0 % 16 in
    if type == 0x3
    then process_touch_packet packet s
    else if type == 0x6
    then process_abs_packet packet s
    else if type == 0x9
    then process_rel_packet packet s
    else s

-- `focaltech_process_byte`, with the report that ends `focaltech_process_packet`.
unfoldable pub process_byte : Handler Data
process_byte m =
    let s = process_packet m.packet m.private in
    if leb 6 m.pktcnt
    then (record m { private = s; effects = m.effects ++ report_state s }, Ret.full_packet)
    else (m, Ret.good_data)

-- A run of packets.
unfoldable pub process_packets : List Bytes → Data → Data
process_packets [] s = s
process_packets (p ∷ ps) s = process_packets ps (process_packet p s)
