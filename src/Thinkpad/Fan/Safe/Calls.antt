-- ===== src/Thinkpad/Fan/Safe/Calls.antt =====
-- What the calls of the firmware and the reads of the fan keep.
use debugging.Common.{ℕ, ◌≤◌, Option, none, some}
use debugging.Kernel.{u8}
use debugging.Thinkpad.{Firmware, StatusMode, FanState, Tp, call, change}
use debugging.Thinkpad.Keeps.{Keeps, keeping}
use debugging.Thinkpad.Ec.{acpi_ec_read, acpi_ec_write}
use debugging.Thinkpad.Fan.{
  fan_status_offset, fan_select_offset, quirk1_handle, update_desired_level, reselect, select_fan1,
  select_fan2, status_by, get_status, get_status_safe, lock_killable,
}
use debugging.Thinkpad.Fan.Safe.{IsSafe, IsFanSafe}

module _ {E : Type 0} (fw : Firmware E) (I : E → Type 0) (safe : IsFanSafe fw I) where
  abbrev pub At : Tp E → Type 0
  At t = I t.ec

  pub change-Keeps : (f : FanState → FanState) → Keeps At (change f)
  unfolding change
  change-Keeps f = record { holds = λ t h. h }

  call-Keeps : {A : Type 0} (f : E → E × A) → ((e : E) → I e → I (f e).0) → Keeps At (call f)
  unfolding call
  call-Keeps f k = record { holds = λ t h. k t.ec h }

  pub ec_read-Keeps : (i : ℕ) → Keeps At (call (λ e. fw.ec_read e i))
  ec_read-Keeps i = call-Keeps (λ e. fw.ec_read e i) (λ e. safe.reads e i)

  pub ecrd-Keeps : (i : ℕ) → Keeps At (call (λ e. fw.ecrd e i))
  ecrd-Keeps i = call-Keeps (λ e. fw.ecrd e i) (λ e. safe.ecrd_reads e i)

  pub gfan-Keeps : Keeps At (call fw.gfan)
  gfan-Keeps = call-Keeps fw.gfan safe.gfan_reads

  pub lock-Keeps : Keeps At (call fw.lock)
  lock-Keeps = call-Keeps fw.lock safe.locks

  pub select-Keeps : (v : ℕ) → Keeps At (call (λ e. fw.ec_write e fan_select_offset v))
  select-Keeps v = call-Keeps (λ e. fw.ec_write e fan_select_offset v) (λ e. safe.selects e v)

  pub ec_write-Keeps : (v : ℕ) → IsSafe v → Keeps At (call (λ e. fw.ec_write e fan_status_offset v))
  ec_write-Keeps v s = call-Keeps (λ e. fw.ec_write e fan_status_offset v) (λ e. safe.writes e v s)

  pub ecwr-Keeps : (v : ℕ) → IsSafe v → Keeps At (call (λ e. fw.ecwr e fan_status_offset v))
  ecwr-Keeps v s = call-Keeps (λ e. fw.ecwr e fan_status_offset v) (λ e. safe.ecwr_writes e v s)

  pub sfan-Keeps : (level : ℕ) → level ≤ 7 → Keeps At (call (λ e. fw.sfan e level))
  sfan-Keeps level s = call-Keeps (λ e. fw.sfan e level) (λ e. safe.sfan_sets e level s)

  pub fans-Keeps : (speed : ℕ) → speed ≤ 65535 → Keeps At (call (λ e. fw.fans e speed speed speed))
  fans-Keeps speed s = call-Keeps (λ e. fw.fans e speed speed speed) (λ e. safe.fans_sets e speed s)

  pub acpi_ec_read-Keeps : (i : ℕ) → Keeps At (acpi_ec_read fw i)
  unfolding acpi_ec_read
  acpi_ec_read-Keeps i = search (keeping, ec_read-Keeps, ecrd-Keeps) depth 8

  pub write-Keeps : (v : ℕ) → IsSafe (u8 v) → Keeps At (acpi_ec_write fw fan_status_offset v)
  unfolding acpi_ec_write
  write-Keeps v s = search (keeping, ec_write-Keeps, ecwr-Keeps) depth 8

  pub quirk1_handle-Keeps : (s : ℕ) → Keeps At (quirk1_handle s)
  unfolding quirk1_handle
  quirk1_handle-Keeps s = search (keeping, change-Keeps) depth 8

  pub update_desired_level-Keeps : (s : ℕ) → Keeps At (update_desired_level s)
  unfolding update_desired_level
  update_desired_level-Keeps s = search (keeping, change-Keeps) depth 8

  pub reselect-Keeps : (f : ℕ → ℕ) (o : Option ℕ) → Keeps At (reselect fw f o)
  unfolding reselect
  reselect-Keeps f none = search keeping
  reselect-Keeps f (some v) = select-Keeps (f v)

  pub select_fan1-Keeps : Keeps At (select_fan1 fw)
  unfolding select_fan1
  select_fan1-Keeps = search (keeping, ec_read-Keeps, reselect-Keeps) depth 8

  pub select_fan2-Keeps : Keeps At (select_fan2 fw)
  unfolding select_fan2
  select_fan2-Keeps = search (keeping, ec_read-Keeps, reselect-Keeps) depth 8

  pub status_by-Keeps : (mode : StatusMode) → Keeps At (status_by fw mode)
  unfolding status_by
  status_by-Keeps StatusMode.rd_acpi_gfan = search (keeping, gfan-Keeps) depth 8
  status_by-Keeps StatusMode.rd_tpec =
      search (keeping, acpi_ec_read-Keeps, quirk1_handle-Keeps) depth 8
  status_by-Keeps StatusMode.rd_tpec_ns = search (keeping, acpi_ec_read-Keeps) depth 8
  status_by-Keeps StatusMode.no_status = search keeping

  pub get_status-Keeps : Keeps At (get_status fw)
  unfolding get_status
  get_status-Keeps = search (keeping, status_by-Keeps) depth 8

  pub lock_killable-Keeps : Keeps At (lock_killable fw)
  unfolding lock_killable
  lock_killable-Keeps = search (keeping, lock-Keeps) depth 8

  pub get_status_safe-Keeps : Keeps At (get_status_safe fw)
  unfolding get_status_safe
  get_status_safe-Keeps =
      search (keeping, lock_killable-Keeps, get_status-Keeps, update_desired_level-Keeps) depth 10
