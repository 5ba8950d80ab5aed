-- ===== src/Thinkpad/Fan/Safe/Files.antt =====
-- What the files of sysfs, the watchdog, suspend and resume keep.
use debugging.Common.{ℕ, Option, none, some}
use debugging.Thinkpad.{Firmware, Tp}
use debugging.Thinkpad.Keeps.{Keeps, keeping}
use debugging.Thinkpad.Ec.{parse_strtoul}
use debugging.Thinkpad.Fan.Control.{set_level, set_level_safe, watchdog_fire, again, invalid}
use debugging.Thinkpad.Fan.Safe.{IsFanSafe}
use debugging.Thinkpad.Fan.Safe.Calls
use debugging.Thinkpad.Fan.Safe.Changes
use debugging.Thinkpad.{Result}
use debugging.Thinkpad.Fan.Commands.{
  pwm1_enable_show, store_level, store_mode, pwm1_enable_store, pwm1_show, plain_level, pwm1_store,
  watchdog_store,
}
use debugging.Thinkpad.Fan.Power.{remember, fan_suspend, restore, fan_resume}

invalid-state : {E A : Type 0} (P : Tp E → Type 0) (r : Result A × Tp E) → P r.1 → P (invalid r).1
invalid-state P (Result.done a, t) h = h
invalid-state P (Result.failed code, t) h = h

module _ {E : Type 0} (fw : Firmware E) (I : E → Type 0) (safe : IsFanSafe fw I) where
  abbrev At : Tp E → Type 0
  At = Calls.At fw I safe

  parse_strtoul-Keeps : (parsed : Option ℕ) (limit : ℕ) → Keeps At (parse_strtoul parsed limit)
  unfolding parse_strtoul
  parse_strtoul-Keeps none limit = search keeping
  parse_strtoul-Keeps (some v) limit = search keeping depth 8

  store_level-Keeps : (level : ℕ) → Keeps At (store_level fw level)
  unfolding store_level
  store_level-Keeps level = record {
    holds = λ t h.
        invalid-state At (set_level_safe fw level t)
          ((Changes.set_level_safe-Keeps fw I safe level).holds t h);
  }

  plain_level-Keeps : (level : ℕ) → Keeps At (plain_level fw level)
  unfolding plain_level
  plain_level-Keeps level = record {
    holds = λ t h.
        invalid-state At (set_level fw level t)
          ((Changes.set_level-Keeps fw I safe level).holds t h);
  }

  store_mode-Keeps : (v : ℕ) → Keeps At (store_mode fw v)
  unfolding store_mode
  store_mode-Keeps v = search (keeping, store_level-Keeps) depth 10

  pub pwm1_enable_store-Keeps : (parsed : Option ℕ) → Keeps At (pwm1_enable_store fw parsed)
  unfolding pwm1_enable_store
  pwm1_enable_store-Keeps parsed =
      search (keeping, parse_strtoul-Keeps, store_mode-Keeps, Changes.watchdog_reset-Keeps) depth 10

  pub pwm1_enable_show-Keeps : Keeps At (pwm1_enable_show fw)
  unfolding pwm1_enable_show
  pwm1_enable_show-Keeps = search (keeping, Calls.get_status_safe-Keeps) depth 10

  pub pwm1_show-Keeps : Keeps At (pwm1_show fw)
  unfolding pwm1_show
  pwm1_show-Keeps = search (keeping, Calls.get_status_safe-Keeps) depth 10

  pub pwm1_store-Keeps : (parsed : Option ℕ) → Keeps At (pwm1_store fw parsed)
  unfolding pwm1_store
  pwm1_store-Keeps parsed =
      search
        (
          keeping, parse_strtoul-Keeps, Calls.lock_killable-Keeps, Calls.get_status-Keeps,
          plain_level-Keeps, Calls.update_desired_level-Keeps, Changes.watchdog_reset-Keeps,
        )
        depth 14

  pub watchdog_store-Keeps : (parsed : Option ℕ) → Keeps At (watchdog_store fw parsed)
  unfolding watchdog_store
  watchdog_store-Keeps parsed =
      search
        (
          keeping, parse_strtoul-Keeps, Changes.allowed-Keeps, Calls.change-Keeps,
          Changes.watchdog_reset-Keeps,
        )
        depth 10

  again-Keeps : (o : Option (Unit {0})) → Keeps At (again fw o)
  unfolding again
  again-Keeps none = Changes.watchdog_reset-Keeps fw I safe
  again-Keeps (some u) = search keeping

  pub watchdog_fire-Keeps : Keeps At (watchdog_fire fw)
  unfolding watchdog_fire
  watchdog_fire-Keeps =
      search (keeping, Calls.change-Keeps, Changes.set_enable-Keeps, again-Keeps) depth 12

  remember-Keeps : (o : Option ℕ) → Keeps At (remember fw o)
  unfolding remember
  remember-Keeps none = search keeping
  remember-Keeps (some s) = Calls.change-Keeps fw I safe _

  pub fan_suspend-Keeps : Keeps At (fan_suspend fw)
  unfolding fan_suspend
  fan_suspend-Keeps =
      search (keeping, Calls.change-Keeps, Calls.get_status_safe-Keeps, remember-Keeps) depth 12

  restore-Keeps : (o : Option ℕ) → Keeps At (restore fw o)
  unfolding restore
  restore-Keeps none = search keeping
  restore-Keeps (some current) = search (keeping, Changes.set_level_safe-Keeps) depth 12

  pub fan_resume-Keeps : Keeps At (fan_resume fw)
  unfolding fan_resume
  fan_resume-Keeps =
      search (keeping, Calls.change-Keeps, Calls.get_status_safe-Keeps, restore-Keeps) depth 12
