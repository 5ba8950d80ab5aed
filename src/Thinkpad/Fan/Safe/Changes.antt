-- ===== src/Thinkpad/Fan/Safe/Changes.antt =====
-- What the changes of the fan keep.
use debugging.Common.{ℕ, ◌%◌, ◌≤◌, inl, inr, Bool, false, not, bit_or, ltb, arith, Bool-cases}
use debugging.Common.Bits.{bit_or-lt}
use debugging.Kernel.{u8}
use debugging.Thinkpad.{Firmware, ControlMode, Tp, Action, give, ◌>>◌}
use debugging.Thinkpad.Keeps.{Keeps, Keeps-bind, Keeps-if, keeping}
use debugging.Thinkpad.Fan.{select_fan1}
use debugging.Thinkpad.Fan.Control.{
  netted, is_outside, enabled_status, allowed, or_disable, second_level, write_status, call_sfan,
  level_by_ec, level_by, set_level, set_level_safe, enable_by_ec, enable_by, set_enable, stopped,
  disable_by, set_disable, speed_by_fans, set_speed, reset_by, watchdog_reset,
}
use debugging.Thinkpad.Fan.Safe.{IsSafe, IsFanSafe, netted-IsSafe, enabled_status-IsSafe}
use debugging.Thinkpad.Fan.Safe.Calls

module _ {E : Type 0} (fw : Firmware E) (I : E → Type 0) (safe : IsFanSafe fw I) where
  abbrev At : Tp E → Type 0
  At = Calls.At fw I safe

  pub allowed-Keeps : Keeps At (allowed fw)
  unfolding allowed
  allowed-Keeps = search keeping depth 8

  or_disable-Keeps : (written : Bool) → Keeps At (or_disable fw written)
  unfolding or_disable
  or_disable-Keeps written = search (keeping, Calls.change-Keeps) depth 8

  restored-Keeps : Keeps At (select_fan1 fw >> give tt)
  restored-Keeps = search (keeping, Calls.select_fan1-Keeps) depth 8

  second_level-Keeps : (m : Action E Bool) → Keeps At m → Keeps At (second_level fw m)
  unfolding second_level
  second_level-Keeps m k = Keeps-bind _ _ (search keeping) (λ ctl.
      Keeps-if (not ctl) _ _ (search keeping) (
        Keeps-bind _ _ (Calls.select_fan2-Keeps fw I safe) (λ ok.
          Keeps-bind _ _ (Keeps-if ok m (give false) k (search keeping))
            (λ written. Keeps-bind _ _ (or_disable-Keeps written) (λ _. restored-Keeps)))))

  write_status-Keeps : (v : ℕ) → IsSafe (u8 v) → Keeps At (write_status fw v)
  unfolding write_status
  write_status-Keeps v s = search (keeping, Calls.write-Keeps, Calls.change-Keeps) depth 8

  call_sfan-Keeps : (level : ℕ) → level ≤ 7 → Keeps At (call_sfan fw level)
  unfolding call_sfan
  call_sfan-Keeps level s =
      Keeps-bind _ _ (Calls.sfan-Keeps fw I safe level s) (λ ok. search keeping depth 8)

  level_by_ec-Keeps : (level : ℕ) → Keeps At (level_by_ec fw level)
  unfolding level_by_ec
  level_by_ec-Keeps level = elim (Bool-cases (is_outside level)) [
    | inl out ↦ rw out (search keeping)
    | inr inside ↦
        let s = netted-IsSafe level inside in
        let write = Calls.write-Keeps fw I safe (netted level) s in
        let second = second_level-Keeps _ write in
        let first = write_status-Keeps (netted level) s in
        rw inside (Keeps-bind _ _ second (λ _. first))
  ]

  level_by-Keeps : (level : ℕ) (mode : ControlMode) → Keeps At (level_by fw level mode)
  unfolding level_by
  level_by-Keeps level ControlMode.wr_acpi_sfan = elim (Bool-cases (ltb 7 level)) [
    | inl high ↦ rw high (search keeping)
    | inr fits ↦
        let s : level ≤ 7 = ground arith in
        let second = second_level-Keeps _ (Calls.sfan-Keeps fw I safe level s) in
        rw fits (Keeps-bind _ _ second (λ _. call_sfan-Keeps level s))
  ]
  level_by-Keeps level ControlMode.wr_acpi_fans = level_by_ec-Keeps level
  level_by-Keeps level ControlMode.wr_tpec = level_by_ec-Keeps level
  level_by-Keeps level ControlMode.no_control = search keeping

  pub set_level-Keeps : (level : ℕ) → Keeps At (set_level fw level)
  unfolding set_level
  set_level-Keeps level = search (keeping, allowed-Keeps, level_by-Keeps) depth 8

  pub set_level_safe-Keeps : (level : ℕ) → Keeps At (set_level_safe fw level)
  unfolding set_level_safe
  set_level_safe-Keeps level =
      search
        (
          keeping, allowed-Keeps, Calls.lock_killable-Keeps, set_level-Keeps,
          Calls.update_desired_level-Keeps,
        )
        depth 12

  enable_by_ec-Keeps : Keeps At (enable_by_ec fw)
  unfolding enable_by_ec
  enable_by_ec-Keeps =
      Keeps-bind _ _ (Calls.get_status-Keeps fw I safe)
        (λ s. write_status-Keeps (enabled_status s) (enabled_status-IsSafe s))

  enable_by-Keeps : (mode : ControlMode) → Keeps At (enable_by fw mode)
  unfolding enable_by
  enable_by-Keeps ControlMode.wr_acpi_fans = enable_by_ec-Keeps
  enable_by-Keeps ControlMode.wr_tpec = enable_by_ec-Keeps
  enable_by-Keeps ControlMode.wr_acpi_sfan = Keeps-bind _ _ (Calls.get_status-Keeps fw I safe) (λ s.
      call_sfan-Keeps (bit_or (s % 8) 4)
        (omega (arith, bit_or-lt 3 (s % 8) 4 (omega arith) (omega arith))))
  enable_by-Keeps ControlMode.no_control = search keeping

  pub set_enable-Keeps : Keeps At (set_enable fw)
  unfolding set_enable
  set_enable-Keeps =
      search (keeping, allowed-Keeps, Calls.lock_killable-Keeps, enable_by-Keeps) depth 10

  stopped-Keeps : Keeps At (stopped fw)
  unfolding stopped
  stopped-Keeps = Calls.change-Keeps fw I safe _

  disable_by-Keeps : (mode : ControlMode) → Keeps At (disable_by fw mode)
  unfolding disable_by
  disable_by-Keeps ControlMode.wr_acpi_fans =
      Keeps-bind _ _ (write_status-Keeps 0 (IsSafe.plain (omega arith))) (λ _. stopped-Keeps)
  disable_by-Keeps ControlMode.wr_tpec =
      Keeps-bind _ _ (write_status-Keeps 0 (IsSafe.plain (omega arith))) (λ _. stopped-Keeps)
  disable_by-Keeps ControlMode.wr_acpi_sfan =
      Keeps-bind _ _ (call_sfan-Keeps 0 (omega arith)) (λ _. stopped-Keeps)
  disable_by-Keeps ControlMode.no_control = search keeping

  pub set_disable-Keeps : Keeps At (set_disable fw)
  unfolding set_disable
  set_disable-Keeps =
      search (keeping, allowed-Keeps, Calls.lock_killable-Keeps, disable_by-Keeps) depth 10

  speed_by_fans-Keeps : (speed : ℕ) (mode : ControlMode) → Keeps At (speed_by_fans fw speed mode)
  unfolding speed_by_fans
  speed_by_fans-Keeps speed ControlMode.wr_acpi_fans = elim (Bool-cases (ltb 65535 speed)) [
    | inl high ↦ rw high (search keeping)
    | inr fits ↦
        let s : speed ≤ 65535 = ground arith in
        rw fits (Keeps-bind _ _ (Calls.fans-Keeps fw I safe speed s) (λ ok. search keeping depth 8))
  ]
  speed_by_fans-Keeps speed ControlMode.no_control = search keeping
  speed_by_fans-Keeps speed ControlMode.wr_acpi_sfan = search keeping
  speed_by_fans-Keeps speed ControlMode.wr_tpec = search keeping

  pub set_speed-Keeps : (speed : ℕ) → Keeps At (set_speed fw speed)
  unfolding set_speed
  set_speed-Keeps speed =
      search (keeping, allowed-Keeps, Calls.lock_killable-Keeps, speed_by_fans-Keeps) depth 10

  reset_by-Keeps : (mode : ControlMode) → Keeps At (reset_by fw mode)
  unfolding reset_by
  reset_by-Keeps ControlMode.no_control = search keeping
  reset_by-Keeps ControlMode.wr_acpi_sfan = Calls.change-Keeps fw I safe _
  reset_by-Keeps ControlMode.wr_acpi_fans = Calls.change-Keeps fw I safe _
  reset_by-Keeps ControlMode.wr_tpec = Calls.change-Keeps fw I safe _

  pub watchdog_reset-Keeps : Keeps At (watchdog_reset fw)
  unfolding watchdog_reset
  watchdog_reset-Keeps = search (keeping, reset_by-Keeps) depth 8
