-- ===== src/Thinkpad/Fan/Control.antt =====
-- thinkpad_acpi.c: the changes of the fan, from `fan_set_level` to `fan_watchdog_fire`.
use debugging.Common.{
  ℕ, ◌*◌, ◌%◌, Bool, true, false, not, Option, none, some, bit_or, ltb, ◌==◌, ◌&&◌, if◌then◌else◌,
}
use debugging.Kernel.{u8, eio, einval}
use debugging.Thinkpad.{
  Firmware, ControlMode, Lifecycle, FanState, Tp, Action, Result, eperm, enxio, give, fail, call,
  look, attempt, change, ◌>>=◌, ◌>>◌,
}
use debugging.Thinkpad.Ec.{acpi_ec_write}
use debugging.Thinkpad.Fan.{
  fan_status_offset, fan_last_level, is_auto, is_fullspeed, update_desired_level, select_fan1,
  select_fan2, get_status, lock_killable,
}

-- The safety net of `fan_set_level`: a speed for an EC that ignores the mode bits.
abbrev pub netted : ℕ → ℕ
netted level =
    if is_fullspeed level then bit_or level 7 else if is_auto level then bit_or level 4 else level

-- A level of neither mode that is not one of 0 to 7.
abbrev pub is_outside : ℕ → Bool
is_outside level = not (is_auto level) && (not (is_fullspeed level) && ltb 7 level)

-- What `fan_set_enable` writes: not out of the emergency mode, and else at least at speed 4.
abbrev pub enabled_status : ℕ → ℕ
enabled_status s = if s == 7 then 7 else bit_or (s % 8) 0x84

-- fan_watchdog_task is scheduled, or cancelled.
abbrev pub rewatched : (ℕ → ℕ) → FanState → FanState
rewatched msecs_to_jiffies f = record f {
  watchdog = elim f.lifecycle [
    | Lifecycle.exiting ↦ none
    | _ ↦
        if ltb 0 f.watchdog_maxinterval
        then some (msecs_to_jiffies (f.watchdog_maxinterval * 1000))
        else none
  ];
}

abbrev pub is_running : Lifecycle → Bool
is_running Lifecycle.running = true
is_running _ = false

-- -ENXIO is -EINVAL for the files of sysfs.
abbrev pub invalid : {E A : Type 0} → Result A × Tp E → Result A × Tp E
invalid (Result.done a, t) = (Result.done a, t)
invalid (Result.failed code, t) = (Result.failed (if code == enxio then einval else code), t)

module _ {E : Type 0} (fw : Firmware E) where
  -- `if (!fan_control_allowed) return -EPERM;`
  unfoldable pub allowed : Action E (Unit {0})
  allowed = do ok ← look (λ f. f.control_allowed); if ok then give tt else fail eperm

  -- A failure ends the support of the second fan.
  unfoldable pub or_disable : Bool → Action E (Unit {0})
  or_disable written =
      if written then give tt else change (λ f. record f { second_fan_ctl = false })

  -- The level of the second fan, by the same write as the first's.
  unfoldable pub second_level : Action E Bool → Action E (Unit {0})
  unfolding or_disable
  second_level write = do
    ctl ← look (λ f. f.second_fan_ctl)
    if not ctl then give tt else do
      ok ← select_fan2 fw
      written ← if ok then write else give false
      or_disable written
      select_fan1 fw
      give tt

  -- A write of the status register, after which the status is defined.
  unfoldable pub write_status : ℕ → Action E (Unit {0})
  write_status level = do
    ok ← acpi_ec_write fw fan_status_offset level
    if ok then change (λ f. record f { ctrl_status_undef = false }) else fail eio

  unfoldable pub call_sfan : ℕ → Action E (Unit {0})
  call_sfan level = do ok ← call (λ e. fw.sfan e level); if ok then give tt else fail eio

  unfoldable pub level_by_ec : ℕ → Action E (Unit {0})
  unfolding second_level write_status
  level_by_ec level = if is_outside level then fail einval else do
    second_level (acpi_ec_write fw fan_status_offset (netted level))
    write_status (netted level)

  unfoldable pub level_by : ℕ → ControlMode → Action E (Unit {0})
  unfolding second_level call_sfan level_by_ec
  level_by level ControlMode.wr_acpi_sfan =
      if ltb 7 level
      then fail einval
      else do second_level (call (λ e. fw.sfan e level)); call_sfan level
  level_by level ControlMode.wr_acpi_fans = level_by_ec level
  level_by level ControlMode.wr_tpec = level_by_ec level
  level_by level ControlMode.no_control = fail enxio

  -- `fan_set_level`
  unfoldable pub set_level : ℕ → Action E (Unit {0})
  unfolding level_by allowed
  set_level level = do allowed; mode ← look (λ f. f.control_mode); level_by level mode

  -- `fan_set_level_safe`
  unfoldable pub set_level_safe : ℕ → Action E (Unit {0})
  unfolding allowed
  set_level_safe level = do
    allowed
    lock_killable fw
    last ← look (λ f. f.desired_level)
    let chosen = if level == fan_last_level then last else level
    set_level chosen
    update_desired_level (u8 chosen)

  unfoldable pub enable_by_ec : Action E (Unit {0})
  unfolding write_status
  enable_by_ec = get_status fw >>= λ s. write_status (enabled_status s)

  unfoldable pub enable_by : ControlMode → Action E (Unit {0})
  unfolding enable_by_ec call_sfan
  enable_by ControlMode.wr_acpi_fans = enable_by_ec
  enable_by ControlMode.wr_tpec = enable_by_ec
  enable_by ControlMode.wr_acpi_sfan = get_status fw >>= λ s. call_sfan (bit_or (s % 8) 4)
  enable_by ControlMode.no_control = fail enxio

  -- `fan_set_enable`
  unfoldable pub set_enable : Action E (Unit {0})
  unfolding allowed enable_by
  set_enable = do allowed; lock_killable fw; mode ← look (λ f. f.control_mode); enable_by mode

  unfoldable pub stopped : Action E (Unit {0})
  stopped = change (λ f. record f { desired_level = 0 })

  unfoldable pub disable_by : ControlMode → Action E (Unit {0})
  unfolding write_status call_sfan stopped
  disable_by ControlMode.wr_acpi_fans = write_status 0x00 >> stopped
  disable_by ControlMode.wr_tpec = write_status 0x00 >> stopped
  disable_by ControlMode.wr_acpi_sfan = call_sfan 0x00 >> stopped
  disable_by ControlMode.no_control = fail enxio

  -- `fan_set_disable`
  unfoldable pub set_disable : Action E (Unit {0})
  unfolding allowed disable_by
  set_disable = do allowed; lock_killable fw; mode ← look (λ f. f.control_mode); disable_by mode

  unfoldable pub speed_by_fans : ℕ → ControlMode → Action E (Unit {0})
  speed_by_fans speed ControlMode.wr_acpi_fans =
      if ltb 65535 speed
      then fail einval
      else do ok ← call (λ e. fw.fans e speed speed speed); if ok then give tt else fail eio
  speed_by_fans speed _ = fail enxio

  -- `fan_set_speed`
  unfoldable pub set_speed : ℕ → Action E (Unit {0})
  unfolding allowed speed_by_fans
  set_speed speed = do
    allowed
    lock_killable fw
    mode ← look (λ f. f.control_mode)
    speed_by_fans speed mode

  unfoldable pub reset_by : ControlMode → Action E (Unit {0})
  reset_by ControlMode.no_control = give tt
  reset_by _ = change (rewatched fw.msecs_to_jiffies)

  -- `fan_watchdog_reset`
  unfoldable pub watchdog_reset : Action E (Unit {0})
  unfolding reset_by
  watchdog_reset = look (λ f. f.control_mode) >>= reset_by

  -- A failure is tried again later.
  unfoldable pub again : Option (Unit {0}) → Action E (Unit {0})
  again none = watchdog_reset
  again (some _) = give tt

  -- `fan_watchdog_fire`, which the work queue calls when the delay is over.
  unfoldable pub watchdog_fire : Action E (Unit {0})
  unfolding again
  watchdog_fire = do
    change (λ f. record f { watchdog = none })
    life ← look (λ f. f.lifecycle)
    if not (is_running life) then give tt else do r ← attempt set_enable; again r
