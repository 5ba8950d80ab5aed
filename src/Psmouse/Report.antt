-- ===== src/Psmouse/Report.antt =====
-- psmouse-base.c: the reports of the standard buttons and of the standard motion.
pub mod Packets
use debugging.Common.{Bool, ℕ, ◌*◌, ◌^◌, List, [], ◌∷◌, ◌++◌, if◌then◌else◌, ◌==◌}
use debugging.Common.Int.{ℤ, pos, neg, sub_ℕ}
use debugging.Common.Bits.{bit, mask_bit}
use debugging.Kernel.{Bytes, Input, Button, Axis, Effect, input}

-- input_report_key, input_report_rel and input_sync as effects
abbrev pub key : Button → Bool → Effect
key b v = input (Input.key b v)

abbrev pub rel : Axis → ℤ → Effect
rel a v = input (Input.rel a v)

abbrev pub abs : Axis → ℤ → Effect
abs a v = input (Input.abs a v)

abbrev pub sync : Effect
sync = input Input.sync

unfoldable pub report_standard_buttons : ℕ → List Effect
report_standard_buttons buttons =
    key Button.left (bit buttons 0)
    ∷ key Button.middle (bit buttons 2)
    ∷ key Button.right (bit buttons 1)
    ∷ []

-- The movement along one axis: `packet[i]`, less 256 if the sign bit is set; 0 if the byte is 0.
-- `sign` is the first byte, shifted so that the axis' sign is bit 8.
unfoldable pub delta : ℕ → ℕ → ℤ
delta byte sign = if byte == 0 then pos 0 else sub_ℕ byte (mask_bit sign 8)

unfoldable pub report_standard_motion : Bytes → List Effect
unfolding delta
report_standard_motion packet =
    rel Axis.x (delta (packet 1) (packet 0 * 2 ^ 4))
    ∷ rel Axis.y (neg (delta (packet 2) (packet 0 * 2 ^ 3)))
    ∷ []

unfoldable pub report_standard_packet : Bytes → List Effect
report_standard_packet packet = report_standard_buttons (packet 0) ++ report_standard_motion packet
