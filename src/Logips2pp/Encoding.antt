-- ===== src/Logips2pp/Encoding.antt =====
-- The extended packets of a PS2++ mouse as the mouse writes them, and their bits.
use debugging.Common.{
  Bool, true, false, ℕ, ◌+◌, ◌-◌, ◌*◌, ◌/◌, ◌%◌, ◌≤◌, ◌<◌, ◌≡◌, List, [], ◌∷◌, bit_or, refl, arith,
  if◌then◌else◌, ◌||◌, ◌∙◌,
}
use debugging.Common.Int.{ℤ, pos, negsuc, neg, abs}
use debugging.Common.Bits.{bit, of_bool, bit-bit_or}
use debugging.Kernel.{Bytes, bytes, Effect, Button, Axis, Headers, IsLinux}
use debugging.Psmouse.Report.{key, rel, sync}

-- The buttons of a mouse.
pub record Buttons : Type 0 where
  pub left : Bool
  pub right : Bool
  pub middle : Bool

abbrev pub button_bits : Buttons → ℕ
button_bits b = of_bool b.left + 2 * of_bool b.right + 4 * of_bool b.middle

-- What a PS2++ device sends beyond the standard packets: a wheel step with two buttons, the five
-- further buttons, or the wheel step of a touchpad; a step is up to seven either way.
pub data Extended : Type 0 where
  wheel_step : Buttons → (horizontal : Bool) → (step : ℤ) → (side extra : Bool) → Extended
  buttons : Buttons → (side extra task back forward : Bool) → Extended
  touchpad_step : Buttons → (horizontal : Bool) → (step : ℤ) → Extended

abbrev pub IsShort : Extended → Type 0
IsShort (Extended.wheel_step b horizontal step side extra) = abs step ≤ 7
IsShort (Extended.buttons b side extra task back forward) = Unit
IsShort (Extended.touchpad_step b horizontal step) = abs step ≤ 7

-- A step in four bits of two's complement, which the report negates.
abbrev pub nibble : ℤ → ℕ
nibble (pos n) = (16 - n) % 16
nibble (negsuc n) = n + 1

-- The packet, and the report.
abbrev pub encode : Extended → Bytes
encode (Extended.wheel_step b horizontal step side extra) = bytes (
    (0x48 + button_bits b)
    ∷ 0xd2
    ∷ (nibble step + 16 * of_bool side + 32 * of_bool extra + 128 * of_bool horizontal)
    ∷ [])
encode (Extended.buttons b side extra task back forward) = bytes (
    (0x48 + button_bits b)
    ∷ 0xe2
    ∷ (of_bool side
        + 2 * of_bool extra
        + 4 * of_bool task
        + 8 * of_bool back
        + 16 * of_bool forward)
    ∷ [])
encode (Extended.touchpad_step b horizontal step) =
    bytes (0x48 ∷ 0xf2 ∷ (button_bits b + 8 * of_bool horizontal + 16 * nibble step) ∷ [])

abbrev pub press : Buttons → List Effect
press b = key Button.left b.left ∷ key Button.middle b.middle ∷ key Button.right b.right ∷ sync ∷ []

abbrev pub axis : Bool → Axis
axis horizontal = if horizontal then Axis.hwheel else Axis.wheel

abbrev pub report : Extended → List Effect
report (Extended.wheel_step b horizontal step side extra) =
    rel (axis horizontal) step ∷ key Button.side side ∷ key Button.extra extra ∷ press b
report (Extended.buttons b side extra task back forward) =
    key Button.side side
    ∷ key Button.extra extra
    ∷ key Button.task task
    ∷ key Button.back back
    ∷ key Button.forward forward
    ∷ press b
report (Extended.touchpad_step b horizontal step) = rel (axis horizontal) step ∷ press b

or-false : (b : Bool) → (b || false) ≡ b
or-false true = refl
or-false false = refl

pub nibble-extends :
    (h : Headers) (step : ℤ) (byte : ℕ)
    → IsLinux h
    → abs step ≤ 7
    → byte < 256
    → byte % 16 ≡ nibble step
    → neg (h.sign_extend32 byte 3) ≡ step
nibble-extends h (pos n) byte linux short small e =
    rw (linux.extends byte 3 (omega arith) (omega arith)) (ground arith)
nibble-extends h (negsuc n) byte linux short small e =
    rw (linux.extends byte 3 (omega arith) (omega arith)) (ground arith)

pub nibble-lt : (step : ℤ) → abs step ≤ 7 → nibble step < 16
nibble-lt (pos n) short = omega arith
nibble-lt (negsuc n) short = omega arith

-- The bits of each byte that holds some.
pub first-fields :
    (b : Buttons)
    → let byte = 0x48 + button_bits b in
      (bit byte 0 ≡ b.left)
      × (bit byte 2 ≡ b.middle)
      × (bit byte 1 ≡ b.right)
      × (bit byte 6 ≡ true)
      × (bit byte 3 ≡ true)
      × (byte / 16 % 4 ≡ 0)
first-fields b = ground arith

pub wheel-fields :
    (n : ℕ) (side extra horizontal : Bool)
    → n < 16
    → let byte = n + 16 * of_bool side + 32 * of_bool extra + 128 * of_bool horizontal in
      (bit byte 7 ≡ horizontal)
      × (bit byte 4 ≡ side)
      × (bit byte 5 ≡ extra)
      × (byte % 16 ≡ n)
      × (byte < 256)
wheel-fields n side extra horizontal small = ground arith

pub buttons-fields :
    (side extra task back forward : Bool)
    → let byte =
        of_bool side
        + 2 * of_bool extra
        + 4 * of_bool task
        + 8 * of_bool back
        + 16 * of_bool forward in
      (bit byte 0 ≡ side)
      × (bit byte 1 ≡ extra)
      × (bit byte 2 ≡ task)
      × (bit byte 3 ≡ back)
      × (bit byte 4 ≡ forward)
buttons-fields side extra task back forward = ground arith

pub touchpad-fields :
    (b : Buttons) (horizontal : Bool) (n : ℕ)
    → n < 16
    → let byte = button_bits b + 8 * of_bool horizontal + 16 * n in
      (bit byte 3 ≡ horizontal)
      × (byte / 16 ≡ n)
      × (bit (bit_or byte 8) 0 ≡ b.left)
      × (bit (bit_or byte 8) 2 ≡ b.middle)
      × (bit (bit_or byte 8) 1 ≡ b.right)
touchpad-fields b horizontal n small =
    let byte = button_bits b + 8 * of_bool horizontal + 16 * n in
    let low : (bit byte 0 ≡ b.left) × (bit byte 2 ≡ b.middle) × (bit byte 1 ≡ b.right) =
      ground arith in
    (
      ground arith,
      ground arith,
      bit-bit_or byte 8 0 ∙ rw (low.0, or-false) refl,
      bit-bit_or byte 8 2 ∙ rw (low.1, or-false) refl,
      bit-bit_or byte 8 1 ∙ rw (low.2, or-false) refl,
    )
