-- ===== src/Thinkpad/Fan/Register.antt =====
-- thinkpad_acpi.c: a firmware whose status register holds what was written, the scale of the fan's
-- levels, and the driver with control over that register.
pub mod Changes
use debugging.Common.{ℕ, ◌<◌, ◌≡◌, ◌⊎◌, Bool, true, false, Option, none, some, ltb, if◌then◌else◌}
use debugging.Thinkpad.{Firmware, StatusMode, ControlMode, Tp}
use debugging.Thinkpad.Fan.{fan_status_offset, is_auto, is_fullspeed}

-- A read of the status gives the register, or fails, and leaves the register as it is.
abbrev pub Reads : {E : Type 0} → (E → ℕ → E × Option ℕ) → (E → ℕ) → Type 0
Reads {E} read status =
    (e : E)
    → let (e', v) = read e fan_status_offset in
      (status e' ≡ status e) × ((v ≡ none) ⊎ (v ≡ some (status e)))

-- A write of a byte to the status sets the register, or fails and leaves it.
abbrev pub Writes : {E : Type 0} → (E → ℕ → ℕ → E × Bool) → (E → ℕ) → Type 0
Writes {E} write status =
    (e : E) (v : ℕ)
    → v < 256
    → let (e', ok) = write e fan_status_offset v in status e' ≡ (if ok then v else status e)

-- The status register `status` of the EC, by the kernel's functions and by the methods ECRD and ECWR.
pub record IsRegister {E : Type 0} (fw : Firmware E) (status : E → ℕ) : Type 0 where
  pub byte : (e : E) → status e < 256
  pub locks : (e : E) → status (fw.lock e).0 ≡ status e
  pub reads : Reads fw.ec_read status
  pub reads_ecrd : Reads fw.ecrd status
  pub writes : Writes fw.ec_write status
  pub writes_ecwr : Writes fw.ecwr status

-- The levels between which the fan's speed lies at a status, on the scale of `fan_resume`, which is
-- full speed above 7 and 7 not below the automatic mode: 8 for full speed, and any level up to 7 in
-- the automatic mode.
abbrev pub slowest : ℕ → ℕ
slowest s = if is_fullspeed s then 8 else if is_auto s then 0 else if ltb 7 s then 7 else s

abbrev pub fastest : ℕ → ℕ
fastest s = if is_fullspeed s then 8 else if is_auto s then 7 else if ltb 7 s then 7 else s

-- The driver with control over the register `s`, and a level to resume with.
pub record IsUnder {E : Type 0} (status : E → ℕ) (s resume : ℕ) (t : Tp E) : Type 0 where
  pub status_is : status t.ec ≡ s
  pub allows : t.fan.control_allowed ≡ true
  pub reads_tpec : t.fan.status_mode ≡ StatusMode.rd_tpec
  pub writes_register :
      (t.fan.control_mode ≡ ControlMode.wr_tpec) ⊎ (t.fan.control_mode ≡ ControlMode.wr_acpi_fans)
  pub defined : t.fan.ctrl_status_undef ≡ false
  pub one_fan : t.fan.second_fan_ctl ≡ false
  pub resumes : t.fan.resume_level ≡ resume
