-- ===== src/Thinkpad/Ec.antt =====
-- thinkpad_acpi.c: `acpi_ec_read`, `acpi_ec_write` and `parse_strtoul`.
use debugging.Common.{ℕ, Bool, Option, none, some, ltb, if◌then◌else◌}
use debugging.Kernel.{u8, einval}
use debugging.Thinkpad.{Firmware, Action, call, fail, give, ◌>>=◌}

-- `*p = v`
abbrev pub byte_of : Option ℕ → Option ℕ
byte_of none = none
byte_of (some v) = some (u8 v)

module _ {E : Type 0} (fw : Firmware E) where
  -- The byte, or none where the function returns 0.
  unfoldable pub acpi_ec_read : ℕ → Action E (Option ℕ)
  acpi_ec_read i = do
    v ← if fw.has_ecrd then call (λ e. fw.ecrd e i) else call (λ e. fw.ec_read e i)
    give (byte_of v)

  unfoldable pub acpi_ec_write : ℕ → ℕ → Action E Bool
  acpi_ec_write i v =
      if fw.has_ecwr then call (λ e. fw.ecwr e i (u8 v)) else call (λ e. fw.ec_write e i (u8 v))

-- `parse_strtoul`, from what `simple_strtoul` makes of the text, which is none where something
-- follows the number.
unfoldable pub parse_strtoul : {E : Type 0} → Option ℕ → ℕ → Action E ℕ
parse_strtoul none limit = fail einval
parse_strtoul (some v) limit = if ltb limit v then fail einval else give v
