-- ===== src/Focaltech/Position.antt =====
-- focaltech.c: the positions of the fingers, from the packet to the report.
use debugging.Common.{
  ℕ, ◌+◌, ◌*◌, ◌-◌, ◌/◌, ◌%◌, ◌^◌, ◌≤◌, ◌<◌, ◌≡◌, ◌≢◌, Bool, true, List, [], ◌∷◌, ◌++◌, refl, arith,
  ◌==◌, ltb, ◌&&◌, if◌then◌else◌, All, Bool-cases, inl, inr,
}
use debugging.Common.Int.{pos, ℤ}
use debugging.Common.Bits.{bit, of_bool}
use debugging.Kernel.{Bytes, bytes, Effect, Input, Axis, input, s32}
use debugging.Psmouse.Report.{abs}
use debugging.Focaltech.{
  Data, max_fingers, sub_u32, slot_report, report_state, process_abs_packet, process_packet,
}

-- Below 2^31 the conversions change nothing.
s32-small : (v : ℕ) → v < 2 ^ 31 → s32 v ≡ pos v
s32-small v small = ground arith

sub_u32-small : (a b : ℕ) → b ≤ a → a < 2 ^ 31 → sub_u32 a b ≡ a - b
sub_u32-small a b le small = omega (arith, le, small)

-- The position of a finger, with the width of the contact and the button.
pub record Position : Type 0 where
  pub finger : ℕ
  pub x : ℕ
  pub y : ℕ
  pub width : ℕ
  pub pressed : Bool

-- What fits the packet, and lies on a touchpad whose height is below 2^31.
abbrev pub IsOn : Data → Position → Type 0
IsOn s v =
    (v.finger < max_fingers)
    × (v.x < 2 ^ 12)
    × (v.y < 2 ^ 16)
    × (v.width < 16)
    × (v.x ≤ s.x_max)
    × (v.y ≤ s.y_max)
    × (s.y_max < 2 ^ 31)

-- The packet of a position, as the touchpad writes it.
abbrev pub encode : Position → Bytes
encode v = bytes (
    (6 + 16 * of_bool v.pressed)
    ∷ (16 * (v.finger + 1) + v.x / 2 ^ 8)
    ∷ (v.x % 2 ^ 8)
    ∷ (v.y / 2 ^ 8)
    ∷ (v.y % 2 ^ 8)
    ∷ (16 * v.width)
    ∷ [])

-- The state after it.
abbrev placed : Position → Data → Data
placed v s = record s {
  pressed = v.pressed;
  width = v.width;
  fingers = λ j.
      if j == v.finger
      then record (s.fingers v.finger) { x = v.x; y = v.y; valid = true }
      else s.fingers j;
}

encode-fields :
    (v : Position)
    → v.x < 2 ^ 12
    → let packet = encode v in
      (packet 0 % 16 ≡ 6)
      × (packet 1 / 16 ≡ v.finger + 1)
      × (packet 1 % 16 * 2 ^ 8 + packet 2 ≡ v.x)
      × (packet 3 * 2 ^ 8 + packet 4 ≡ v.y)
      × (packet 5 / 16 ≡ v.width)
      × (bit (packet 0) 4 ≡ v.pressed)
encode-fields v h = (ground arith, omega arith, omega arith, omega arith, omega arith, ground arith)

process_packet-encode :
    (v : Position) (s : Data)
    → v.finger < max_fingers
    → v.x < 2 ^ 12
    → process_packet (encode v) s ≡ placed v s
unfolding process_packet process_abs_packet
process_packet-encode v s f h =
    let (type, field, x, y, width, pressed) = encode-fields v h in
    let index : v.finger + 1 - 1 ≡ v.finger = omega arith in
    rw (type, field, x, y, width, pressed, index) (ground arith)

-- The packet of a position on the touchpad, of a finger that touches it, puts exactly that position
-- into the finger's report, with y counted from the top, and leaves every other finger as it was.
pub process_packet-position :
    (v : Position) (s : Data)
    → IsOn s v
    → (s.fingers v.finger).active ≡ true
    → let s' = process_packet (encode v) s in
      (slot_report s' v.finger
        ≡ input (Input.mt_slot v.finger)
          ∷ input (Input.mt_slot_state true)
          ∷ abs Axis.mt_position_x (pos v.x)
          ∷ abs Axis.mt_position_y (pos (s.y_max - v.y))
          ∷ abs Axis.tool_width (pos v.width)
          ∷ [])
      × (s'.pressed ≡ v.pressed)
      × ((j : ℕ) → j ≢ v.finger → s'.fingers j ≡ s.fingers j)
unfolding slot_report
process_packet-position v s on active =
    rw (process_packet-encode v s on.0 on.1) (ground arith, refl, λ j ne. ground arith)

-- A report stays on the touchpad.
abbrev pub IsWithin : Data → Effect → Type 0
IsWithin s (input (Input.abs Axis.mt_position_x (pos v))) = v ≤ s.x_max
IsWithin s (input (Input.abs Axis.mt_position_y (pos v))) = v ≤ s.y_max
IsWithin s (input (Input.abs Axis.mt_position_x (ℤ.negsuc v))) = ⊥
IsWithin s (input (Input.abs Axis.mt_position_y (ℤ.negsuc v))) = ⊥
IsWithin s _ = Unit

All-append : {A : Type 0} (P : A → Type 0) (xs ys : List A) → All P xs → All P ys → All P (xs ++ ys)
All-append P [] ys a b = b
All-append P (x ∷ xs) ys a b = (a.0, All-append P xs ys a.1 b)

clamped-leq : (limit v : ℕ) → (if ltb limit v then limit else v) ≤ limit
clamped-leq limit v = ground arith

reported-x :
    (s : Data) (v : ℕ)
    → v ≤ s.x_max
    → s.x_max < 2 ^ 31
    → IsWithin s (abs Axis.mt_position_x (s32 v))
reported-x s v below small = rw (s32-small v (omega arith)) below

reported-y :
    (s : Data) (v : ℕ)
    → v ≤ s.y_max
    → s.y_max < 2 ^ 31
    → IsWithin s (abs Axis.mt_position_y (s32 (sub_u32 s.y_max v)))
reported-y s v below small =
    rw (sub_u32-small s.y_max v below small, s32-small (s.y_max - v) (omega arith)) (omega arith)

slot_report-IsWithin :
    (s : Data) (i : ℕ) → s.x_max < 2 ^ 31 → s.y_max < 2 ^ 31 → All (IsWithin s) (slot_report s i)
unfolding slot_report
slot_report-IsWithin s i width height =
    elim (Bool-cases ((s.fingers i).active && (s.fingers i).valid)) [
      | inl on ↦ rw on (
        tt,
        (
          tt,
          (
            reported-x s _ (clamped-leq s.x_max (s.fingers i).x) width,
            (reported-y s _ (clamped-leq s.y_max (s.fingers i).y) height, (tt, tt)),
          ),
        ),
      )
      | inr off ↦ rw off (tt, (tt, tt))
    ]

-- Every position that is reported lies on the touchpad, whatever words the packets made of the
-- fingers' positions, if its size is below 2^31 along both axes.
pub report_state-IsWithin :
    (s : Data) → s.x_max < 2 ^ 31 → s.y_max < 2 ^ 31 → All (IsWithin s) (report_state s)
unfolding report_state
report_state-IsWithin s width height =
    All-append (IsWithin s) (slot_report s 0) _ (slot_report-IsWithin s 0 width height) (
      All-append (IsWithin s) (slot_report s 1) _ (slot_report-IsWithin s 1 width height) (
        All-append (IsWithin s) (slot_report s 2) _ (slot_report-IsWithin s 2 width height) (
          All-append (IsWithin s) (slot_report s 3) _ (slot_report-IsWithin s 3 width height) (
            All-append (IsWithin s) (slot_report s 4) _ (slot_report-IsWithin s 4 width height)
              (tt, (tt, (tt, tt)))))))
