-- ===== src/Thinkpad/Fan/Power.antt =====
-- thinkpad_acpi.c: the fan over a suspend, `fan_suspend`, `fan_resume` and `fan_exit`.
use debugging.Common.{ℕ, Bool, false, not, Option, none, some, ltb, ◌==◌, ◌&&◌, ◌||◌, if◌then◌else◌}
use debugging.Thinkpad.{Firmware, ControlMode, Action, give, look, attempt, change, ◌>>=◌, ◌>>◌}
use debugging.Thinkpad.Fan.{is_fullspeed, get_status_safe}
use debugging.Thinkpad.Fan.Control.{set_level_safe}

-- Whether the level of the suspend is set again, over the one that the firmware has set.
abbrev pub is_restored : ControlMode → ℕ → ℕ → Bool
is_restored ControlMode.wr_acpi_sfan level current = ltb current level
is_restored ControlMode.no_control level current = false
is_restored _ level current =
    if not (level == 7) && not (is_fullspeed level)
    then false
    else not (is_fullspeed current) && not (current == level)

module _ {E : Type 0} (fw : Firmware E) where
  unfoldable pub remember : Option ℕ → Action E (Unit {0})
  remember none = give tt
  remember (some s) = change (λ f. record f { resume_level = s })

  -- `fan_suspend`
  unfoldable pub fan_suspend : Action E (Unit {0})
  unfolding remember
  fan_suspend = do
    ok ← look (λ f. f.control_allowed)
    if not ok then give tt else do
      change (λ f. record f { resume_level = 0 })
      s ← attempt (get_status_safe fw)
      remember s
      change (λ f. if f.ctrl_status_undef then record f { resume_level = 0 } else f)

  unfoldable pub restore : Option ℕ → Action E (Unit {0})
  restore none = give tt
  restore (some current) = do
    f ← look (λ f. f)
    if is_restored f.control_mode f.resume_level current
        then (attempt (set_level_safe fw f.resume_level) >> give tt)
        else give tt

  -- `fan_resume`
  unfoldable pub fan_resume : Action E (Unit {0})
  unfolding restore
  fan_resume = do
    change (λ f. record f { ctrl_status_undef = false })
    f ← look (λ f. f)
    if not f.control_allowed || f.resume_level == 0
        then give tt
        else (attempt (get_status_safe fw) >>= restore)

-- `fan_exit`
unfoldable pub fan_exit : {E : Type 0} → Action E (Unit {0})
fan_exit = change (λ f. record f { watchdog = none })
