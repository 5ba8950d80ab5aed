-- ===== src/Psmouse/Report/Packets.antt =====
-- The packet format of a standard mouse, as the device side writes it, against the reports.
use debugging.Common.{
  ◌||◌, ◌<◌, bit_or, zero, suc, ◌/◌, ◌%◌, ◌^◌, refl, ℕ, ◌+◌, ◌-◌, ◌*◌, ◌≤◌, Bool, List, [], ◌∷◌,
  ◌≡◌, arith,
}
use debugging.Common.Int.{ℤ, pos, neg, abs}
use debugging.Common.Bits.{of_bool, bit, bit-bit_or}
use debugging.Kernel.{bytes, Effect, Button, Axis, Bytes}
use debugging.Psmouse.Report.{
  report_standard_packet, report_standard_buttons, report_standard_motion, delta, key, rel,
}

-- A movement with the three buttons.
pub record Movement : Type 0 where
  pub left : Bool
  pub right : Bool
  pub middle : Bool
  pub dx : ℤ
  pub dy : ℤ

-- Both displacements fit nine bits of two's complement, -256 excepted.
abbrev pub IsSmall : Movement → Type 0
IsSmall v = (abs v.dx ≤ 255) × (abs v.dy ≤ 255)

-- The low byte of a displacement, and its sign.
abbrev pub low : ℤ → ℕ
low (pos n) = n
low (ℤ.negsuc n) = 255 - n

abbrev pub sign : ℤ → ℕ
sign (pos n) = 0
sign (ℤ.negsuc n) = 1

-- The three bytes that a standard mouse sends for it.
abbrev pub first_byte : Movement → ℕ
first_byte v =
    of_bool v.left
    + 2 * of_bool v.right
    + 4 * of_bool v.middle
    + 8
    + 16 * sign v.dx
    + 32 * sign v.dy

abbrev pub encode : Movement → List ℕ
encode v = first_byte v ∷ low v.dx ∷ low v.dy ∷ []

-- What the input layer is told of it: up is positive on the wire and negative on the screen.
abbrev pub standard_report : Movement → List Effect
standard_report v =
    key Button.left v.left
    ∷ key Button.middle v.middle
    ∷ key Button.right v.right
    ∷ rel Axis.x v.dx
    ∷ rel Axis.y (neg v.dy)
    ∷ []

-- The sign bit of each axis, whatever the buttons.
delta_lem : (d : ℤ) (n : ℕ) → abs d ≤ 255 → n / 2 ^ 8 % 2 ≡ sign d → delta (low d) n ≡ d
unfolding delta
delta_lem (pos zero) n h e = refl
delta_lem (pos (suc k)) n h e = ground arith
delta_lem (ℤ.negsuc k) n h e = ground arith

first_byte-sign :
    (v : Movement)
    → (first_byte v * 2 ^ 4 / 2 ^ 8 % 2 ≡ sign v.dx)
      × (first_byte v * 2 ^ 3 / 2 ^ 8 % 2 ≡ sign v.dy)
first_byte-sign v = ground arith

first_byte-buttons :
    (v : Movement)
    → (bit (first_byte v) 0 ≡ v.left)
      × (bit (first_byte v) 2 ≡ v.middle)
      × (bit (first_byte v) 1 ≡ v.right)
first_byte-buttons v = ground arith

pub report_standard_buttons-encode :
    (v : Movement)
    → report_standard_buttons (first_byte v)
      ≡ key Button.left v.left ∷ key Button.middle v.middle ∷ key Button.right v.right ∷ []
unfolding report_standard_buttons
report_standard_buttons-encode v =
    rw ((first_byte-buttons v).0, (first_byte-buttons v).1, (first_byte-buttons v).2) refl

pub report_standard_motion-encode :
    (v : Movement)
    → IsSmall v
    → report_standard_motion (bytes (encode v)) ≡ rel Axis.x v.dx ∷ rel Axis.y (neg v.dy) ∷ []
unfolding report_standard_motion
report_standard_motion-encode v h =
    rw
      (
        delta_lem v.dx (first_byte v * 2 ^ 4) h.0 (first_byte-sign v).0,
        delta_lem v.dy (first_byte v * 2 ^ 3) h.1 (first_byte-sign v).1,
      )
      refl

-- Decoding a packet gives the movement that was encoded: `report_standard_packet` reports each
-- button and each displacement of a movement within 255 counts, with the vertical one negated.
pub report_standard_packet-encode :
    (v : Movement) → IsSmall v → report_standard_packet (bytes (encode v)) ≡ standard_report v
unfolding report_standard_packet
report_standard_packet-encode v h =
    rw (report_standard_buttons-encode v, report_standard_motion-encode v h) refl

-- The buttons of the movement together with extra buttons that came out of band.
abbrev pub press : ℕ → Movement → Movement
press extra v = record v {
  left = v.left || bit extra 0;
  right = v.right || bit extra 1;
  middle = v.middle || bit extra 2;
}

pressed_byte-sign :
    (v : Movement) (extra : ℕ)
    → extra < 8
    → (bit_or (first_byte v) extra * 2 ^ 4 / 2 ^ 8 % 2 ≡ sign v.dx)
      × (bit_or (first_byte v) extra * 2 ^ 3 / 2 ^ 8 % 2 ≡ sign v.dy)
pressed_byte-sign v extra h =
    ground (arith, bit-bit_or (first_byte v) extra 4, bit-bit_or (first_byte v) extra 5)

-- A packet whose first byte is or-ed with extra buttons reports both the buttons of the movement
-- and the extra ones, and the same displacements.
pub report_standard_packet-press :
    (v : Movement) (extra : ℕ) (packet : Bytes)
    → IsSmall v
    → extra < 8
    → packet 0 ≡ bit_or (first_byte v) extra
    → packet 1 ≡ low v.dx
    → packet 2 ≡ low v.dy
    → report_standard_packet packet ≡ standard_report (press extra v)
unfolding report_standard_packet report_standard_buttons report_standard_motion
report_standard_packet-press v extra packet h e p₀ p₁ p₂ =
    rw (p₀, p₁, p₂)
      (rw (
        delta_lem v.dx (bit_or (first_byte v) extra * 2 ^ 4) h.0 (pressed_byte-sign v extra e).0,
        delta_lem v.dy (bit_or (first_byte v) extra * 2 ^ 3) h.1 (pressed_byte-sign v extra e).1,
        bit-bit_or (first_byte v) extra 0,
        bit-bit_or (first_byte v) extra 1,
        bit-bit_or (first_byte v) extra 2,
        (first_byte-buttons v).0,
        (first_byte-buttons v).1,
        (first_byte-buttons v).2,
      ))
