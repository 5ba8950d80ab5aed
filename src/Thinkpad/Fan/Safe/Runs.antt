-- ===== src/Thinkpad/Fan/Safe/Runs.antt =====
-- Any run of the driver on the fan: commands, files, the watchdog, and suspends with resumes.
use debugging.Common.{ℕ, Option, List, [], ◌∷◌}
use Prim.Native.String.{String}
use debugging.Thinkpad.{Firmware, Tp, Action, give, ◌>>◌}
use debugging.Thinkpad.Keeps.{Keeps, keeping}
use debugging.Thinkpad.Fan.Control.{watchdog_fire}
use debugging.Thinkpad.Fan.Safe.{IsFanSafe}
use debugging.Thinkpad.Fan.Safe.Calls
use debugging.Thinkpad.Fan.Commands.{
  Text, pwm1_enable_show, pwm1_enable_store, pwm1_show, pwm1_store, watchdog_store, fan_write,
}
use debugging.Thinkpad.Fan.Power.{fan_suspend, fan_resume}
use debugging.Thinkpad.Fan.Safe.Files
use debugging.Thinkpad.Fan.Safe.Texts

-- A text written to the procfs file, as its commands; the files of sysfs, with the number that was
-- written; the watchdog's delay is over; a suspend, and a resume.
pub data Event : Type 0 where
  write : List String → Event
  store_mode_of : Option ℕ → Event
  store_pwm : Option ℕ → Event
  store_watchdog : Option ℕ → Event
  show_mode show_pwm fire suspend resume : Event

module _ {E : Type 0} (fw : Firmware E) (text : Text) where
  abbrev pub perform : Event → Action E (Unit {0})
  perform (Event.write cmds) = fan_write fw text cmds
  perform (Event.store_mode_of parsed) = pwm1_enable_store fw parsed
  perform (Event.store_pwm parsed) = pwm1_store fw parsed
  perform (Event.store_watchdog parsed) = watchdog_store fw parsed
  perform Event.show_mode = pwm1_enable_show fw >> give tt
  perform Event.show_pwm = pwm1_show fw >> give tt
  perform Event.fire = watchdog_fire fw
  perform Event.suspend = fan_suspend fw
  perform Event.resume = fan_resume fw

  abbrev pub run : List Event → Tp E → Tp E
  run [] t = t
  run (e ∷ es) t = run es (perform e t).1

module _ {E : Type 0} (fw : Firmware E) (I : E → Type 0) (safe : IsFanSafe fw I) where
  abbrev At : Tp E → Type 0
  At = Calls.At fw I safe

  module _ (text : Text) where
    perform-Keeps : (e : Event) → Keeps At (perform fw text e)
    perform-Keeps (Event.write cmds) = Texts.fan_write-Keeps fw I safe text cmds
    perform-Keeps (Event.store_mode_of parsed) = Files.pwm1_enable_store-Keeps fw I safe parsed
    perform-Keeps (Event.store_pwm parsed) = Files.pwm1_store-Keeps fw I safe parsed
    perform-Keeps (Event.store_watchdog parsed) = Files.watchdog_store-Keeps fw I safe parsed
    perform-Keeps Event.show_mode = search (keeping, Files.pwm1_enable_show-Keeps) depth 8
    perform-Keeps Event.show_pwm = search (keeping, Files.pwm1_show-Keeps) depth 8
    perform-Keeps Event.fire = Files.watchdog_fire-Keeps fw I safe
    perform-Keeps Event.suspend = Files.fan_suspend-Keeps fw I safe
    perform-Keeps Event.resume = Files.fan_resume-Keeps fw I safe

    -- Whatever commands, files, expiries of the watchdog, suspends and resumes come, and whatever
    -- the firmware answers, the driver never gives the fan an unsafe value: a condition on the
    -- firmware that every read keeps, and every value of the fan that is at most 7, or full speed
    -- with the level 7, or automatic with at least the level 4, holds at the end of the run if it
    -- does at its beginning.
    pub run-safe : (es : List Event) (t : Tp E) → I t.ec → I (run fw text es t).ec
    run-safe [] t h = h
    run-safe (e ∷ es) t h = run-safe es (perform fw text e t).1 ((perform-Keeps e).holds t h)
