-- ===== src/Thinkpad/Fan/Commands.antt =====
-- thinkpad_acpi.c: the files of sysfs and the commands of procfs for the fan. The text of a command is
-- read by the kernel's functions, which are arguments.
use debugging.Common.{
  ℕ, ◌*◌, ◌/◌, ◌%◌, ◌^◌, Bool, true, false, Option, none, some, List, [], ◌∷◌, ltb, ◌==◌, ◌||◌,
  if◌then◌else◌,
}
use Prim.Native.String.{String}
use debugging.Kernel.{einval}
use debugging.Thinkpad.{Firmware, Commands, Action, enosys, give, fail, look, change, ◌>>=◌, ◌>>◌}
use debugging.Thinkpad.Ec.{parse_strtoul}
use debugging.Thinkpad.Fan.{
  fan_last_level, tp_ec_fan_auto, tp_ec_fan_fullspeed, is_auto, is_fullspeed, update_desired_level,
  get_status, get_status_safe, get_speed, get_speed2, lock_killable,
}
use debugging.Thinkpad.Fan.Control.{
  allowed, invalid, set_level, set_level_safe, set_enable, set_disable, set_speed, watchdog_reset,
}

-- What the kernel's text functions answer: `strstarts` and `sscanf` with "%d" at the end of a prefix,
-- which gives the word of 32 bits.
pub record Text : Type 0 where
  pub starts : String → String → Bool
  pub scan : String → String → Option ℕ

-- The value of pwm1_enable for a status.
abbrev pub mode_of : ℕ → ℕ
mode_of status = if is_fullspeed status then 0 else if is_auto status then 2 else 1

module _ {E : Type 0} (fw : Firmware E) where
  -- `fan_pwm1_enable_show`
  unfoldable pub pwm1_enable_show : Action E ℕ
  pwm1_enable_show = get_status_safe fw >>= λ status. give (mode_of status)

  -- The level for a mode, and the store of it.
  unfoldable pub store_level : ℕ → Action E (Unit {0})
  store_level level t = invalid (set_level_safe fw level t)

  unfoldable pub store_mode : ℕ → Action E (Unit {0})
  unfolding store_level
  store_mode v =
      if v == 0
      then store_level tp_ec_fan_fullspeed
      else if v == 1
      then store_level fan_last_level
      else if v == 2
      then store_level tp_ec_fan_auto
      else if v == 3
      then fail enosys
      else fail einval

  -- `fan_pwm1_enable_store`, from the number in the text.
  unfoldable pub pwm1_enable_store : Option ℕ → Action E (Unit {0})
  unfolding store_mode
  pwm1_enable_store parsed = do v ← parse_strtoul parsed 2; store_mode v; watchdog_reset fw

  -- `fan_pwm1_show`
  unfoldable pub pwm1_show : Action E ℕ
  pwm1_show = do
    s ← get_status_safe fw
    last ← look (λ f. f.desired_level)
    let status = if is_auto s || is_fullspeed s then last else s
    give ((if ltb 7 status then 7 else status) * 255 / 7)

  unfoldable pub plain_level : ℕ → Action E (Unit {0})
  plain_level level t = invalid (set_level fw level t)

  -- `fan_pwm1_store`
  unfoldable pub pwm1_store : Option ℕ → Action E (Unit {0})
  unfolding plain_level
  pwm1_store parsed = do
    s ← parse_strtoul parsed 255
    lock_killable fw
    status ← get_status fw
    if is_auto status || is_fullspeed status
        then give tt
        else do plain_level (s / 2 ^ 5 % 8); update_desired_level (s / 2 ^ 5 % 8); watchdog_reset fw

  -- `fan_fan1_input_show` and `fan_fan2_input_show`
  unfoldable pub fan1_input_show : Action E ℕ
  fan1_input_show = get_speed fw

  unfoldable pub fan2_input_show : Action E ℕ
  fan2_input_show = get_speed2 fw

  -- `fan_watchdog_store`
  unfoldable pub watchdog_store : Option ℕ → Action E (Unit {0})
  watchdog_store parsed = do
    v ← parse_strtoul parsed 120
    allowed fw
    change (λ f. record f { watchdog_maxinterval = v })
    watchdog_reset fw

  module _ (text : Text) where
    -- A command, if the text is one: the functions `fan_write_cmd_*`. Their code is the action's.
    unfoldable pub cmd_level : String → Option (Action E (Unit {0}))
    cmd_level cmd =
        if text.starts cmd "level auto"
        then some (set_level_safe fw tp_ec_fan_auto)
        else if text.starts cmd "level disengaged" || text.starts cmd "level full-speed"
        then some (set_level_safe fw tp_ec_fan_fullspeed)
        else elim (text.scan cmd "level ") [
          | none ↦ none
          | some level ↦ some (set_level_safe fw level)
        ]

    unfoldable pub cmd_enable : String → Option (Action E (Unit {0}))
    cmd_enable cmd = if text.starts cmd "enable" then some (set_enable fw) else none

    unfoldable pub cmd_disable : String → Option (Action E (Unit {0}))
    cmd_disable cmd = if text.starts cmd "disable" then some (set_disable fw) else none

    unfoldable pub cmd_speed : String → Option (Action E (Unit {0}))
    cmd_speed cmd = elim (text.scan cmd "speed ") [
      | none ↦ none
      | some speed ↦ some (set_speed fw speed)
    ]

    unfoldable pub set_interval : ℕ → Action E (Unit {0})
    set_interval interval =
        if ltb 120 interval
        then fail einval
        else change (λ f. record f { watchdog_maxinterval = interval })

    unfoldable pub cmd_watchdog : String → Option (Action E (Unit {0}))
    unfolding set_interval
    cmd_watchdog cmd = elim (text.scan cmd "watchdog ") [
      | none ↦ none
      | some interval ↦ some (set_interval interval)
    ]

    -- The first that is there, if the command is supported.
    unfoldable pub or_next :
        Option (Action E (Unit {0})) → Option (Action E (Unit {0})) → Option (Action E (Unit {0}))
    or_next (some m) n = some m
    or_next none n = n

    unfoldable pub supported : Bool → Option (Action E (Unit {0})) → Option (Action E (Unit {0}))
    supported true m = m
    supported false m = none

    -- The choice of the function for one command.
    unfoldable pub dispatch : Commands → String → Option (Action E (Unit {0}))
    unfolding or_next supported cmd_level cmd_enable cmd_disable cmd_watchdog cmd_speed
    dispatch c cmd = or_next (supported c.level (cmd_level cmd)) (
        or_next
          (supported c.enable
            (or_next (cmd_enable cmd) (or_next (cmd_disable cmd) (cmd_watchdog cmd))))
          (supported c.speed (cmd_speed cmd)))

    unfoldable pub obey : Option (Action E (Unit {0})) → Action E (Unit {0})
    obey none = fail einval
    obey (some m) = m >> watchdog_reset fw

    -- `fan_write`, from the commands between the commas.
    unfoldable pub fan_write : List String → Action E (Unit {0})
    unfolding dispatch obey
    fan_write [] = give tt
    fan_write (cmd ∷ rest) = do c ← look (λ f. f.commands); obey (dispatch c cmd); fan_write rest
