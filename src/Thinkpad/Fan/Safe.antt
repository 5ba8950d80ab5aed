-- ===== src/Thinkpad/Fan/Safe.antt =====
-- What the driver writes to the fan, whatever it is told and whatever the firmware answers.
pub mod Calls
pub mod Changes
pub mod Files
pub mod Texts
pub mod Runs
use debugging.Common.{
  ℕ, zero, suc, ◌+◌, ◌*◌, ◌/◌, ◌%◌, ◌^◌, ◌≤◌, ◌<◌, ◌≡◌, ◌⊎◌, inl, inr, Bool, true, false, not,
  Option, none, some, List, [], ◌∷◌, bit_or, ltb, ◌==◌, ◌&&◌, ◌||◌, if◌then◌else◌, refl, arith,
  Bool-cases,
}
use Prim.Native.String.{String}
use debugging.Common.Bits.{bit, bit-bit_or}
use debugging.Kernel.{u8}
use debugging.Thinkpad.{
  Firmware, StatusMode, ControlMode, Commands, FanState, Tp, Action, call, change, ◌>>=◌, ◌>>◌,
}
use debugging.Thinkpad.Keeps.{Keeps, Keeps-bind, keeping}
use debugging.Thinkpad.Ec.{acpi_ec_read, acpi_ec_write, parse_strtoul}
use debugging.Thinkpad.Fan.{
  fan_status_offset, fan_select_offset, is_auto, is_fullspeed, quirk1_handle, update_desired_level,
  reselect, select_fan1, select_fan2, status_by, get_status, get_status_safe, lock_killable,
}
use debugging.Thinkpad.Fan.Control.{
  netted, is_outside, enabled_status, allowed, second_level, write_status, call_sfan, level_by_ec,
  level_by, set_level, set_level_safe, enable_by_ec, enable_by, set_enable, stopped, disable_by,
  set_disable, speed_by_fans, set_speed, reset_by, watchdog_reset, watchdog_fire, invalid,
}

-- A value of the status register that runs the fan at a level of 0 to 7, or in one of the two modes
-- with a minimal speed for an EC that ignores the mode: 7 for full speed, and at least 4 for the
-- automatic one.
pub data IsSafe (v : ℕ) : Type 0 where
  plain : v ≤ 7 → IsSafe v
  fullspeed : is_fullspeed v ≡ true → v % 8 ≡ 7 → IsSafe v
  auto : is_auto v ≡ true → 4 ≤ v % 8 → IsSafe v

-- A condition on the firmware that survives everything but an unsafe value for the fan.
pub record IsFanSafe {E : Type 0} (fw : Firmware E) (I : E → Type 0) : Type 0 where
  pub reads : (e : E) (i : ℕ) → I e → I (fw.ec_read e i).0
  pub ecrd_reads : (e : E) (i : ℕ) → I e → I (fw.ecrd e i).0
  pub gfan_reads : (e : E) → I e → I (fw.gfan e).0
  pub locks : (e : E) → I e → I (fw.lock e).0
  pub selects : (e : E) (v : ℕ) → I e → I (fw.ec_write e fan_select_offset v).0
  pub writes : (e : E) (v : ℕ) → IsSafe v → I e → I (fw.ec_write e fan_status_offset v).0
  pub ecwr_writes : (e : E) (v : ℕ) → IsSafe v → I e → I (fw.ecwr e fan_status_offset v).0
  pub sfan_sets : (e : E) (level : ℕ) → level ≤ 7 → I e → I (fw.sfan e level).0
  pub fans_sets : (e : E) (speed : ℕ) → speed ≤ 65535 → I e → I (fw.fans e speed speed speed).0

pub netted-IsSafe : (level : ℕ) → is_outside level ≡ false → IsSafe (u8 (netted level))
netted-IsSafe level inside = elim (Bool-cases (is_fullspeed level)) [
  | inl full ↦ rw full (
      IsSafe.fullspeed (ground (arith, bit-bit_or level 7 6))
        (ground (arith, bit-bit_or level 7 0, bit-bit_or level 7 1, bit-bit_or level 7 2)))
  | inr slow ↦ elim (Bool-cases (is_auto level)) [
    | inl auto_on ↦
        rw (slow, auto_on)
          (IsSafe.auto (ground (arith, bit-bit_or level 4 7))
            (ground (arith, bit-bit_or level 4 2)))
    | inr manual ↦ rw (slow, manual) (IsSafe.plain (ground arith))
  ]
]

pub enabled_status-IsSafe : (s : ℕ) → IsSafe (u8 (enabled_status s))
enabled_status-IsSafe s = elim (Bool-cases (s == 7)) [
  | inl emergency ↦ rw emergency (IsSafe.plain (omega arith))
  | inr other ↦ rw other (
      IsSafe.auto (ground (arith, bit-bit_or (s % 8) 0x84 7))
        (ground (arith, bit-bit_or (s % 8) 0x84 2)))
]
