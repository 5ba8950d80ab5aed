-- ===== src/Thinkpad/Examples.antt =====
-- A fan under a firmware whose only state is the status register, and the theorems about it.
use debugging.Common.{
  inl, inr, ◌⊎◌, ◌≤◌, ℕ, ◌/◌, ◌%◌, ◌≤◌, inr, ◌≡◌, ◌⊎◌, true, false, List, [], ◌∷◌, some, refl,
  arith, ◌==◌, if◌then◌else◌,
}
use debugging.Thinkpad.{Firmware, StatusMode, ControlMode, Lifecycle, Tp, Result}
use debugging.Thinkpad.Fan.Control.{set_enable, watchdog_fire}
use debugging.Thinkpad.Fan.Commands.{Text}
use debugging.Thinkpad.Fan.Safe.{IsSafe, IsFanSafe}
use debugging.Thinkpad.Fan.Safe.Runs.{Event, run, run-safe}
use debugging.Thinkpad.Fan.Power.{fan_resume}
use debugging.Thinkpad.Fan.Register.{slowest, IsRegister, IsUnder}
use debugging.Thinkpad.Fan.Resume.{fan_resume-faster}
use debugging.Thinkpad.Fan.Watchdog.{expired, watchdog_fire-persists}

abbrev firmware : Firmware ℕ
firmware = record {
  ec_read = λ e i. (e, some e);
  ec_write = λ e i v. (if i == 0x2f then v else e, true);
  has_ecrd = false;
  ecrd = λ e i. (e, some e);
  has_ecwr = false;
  ecwr = λ e i v. (if i == 0x2f then v else e, true);
  has_gfan = false;
  gfan = λ e. (e, some e);
  has_sfan = false;
  sfan = λ e level. (level, true);
  has_fans = false;
  fans = λ e a b c. (e, true);
  lock = λ e. (e, true);
  msecs_to_jiffies = λ ms. ms / 4;
}

firmware-IsFanSafe : IsFanSafe firmware IsSafe
firmware-IsFanSafe = record {
  reads = λ e i h. h;
  ecrd_reads = λ e i h. h;
  gfan_reads = λ e h. h;
  locks = λ e h. h;
  selects = λ e v h. h;
  writes = λ e v s h. s;
  ecwr_writes = λ e v s h. s;
  sfan_sets = λ e level p h. IsSafe.plain p;
  fans_sets = λ e speed p h. h;
}

-- Every text is the automatic level, or a number.
abbrev text : Text
text = record { starts = λ cmd prefix. false; scan = λ cmd prefix. some 200 }

abbrev laptop : Tp ℕ
laptop = record {
  ec = 3;
  fan = record {
    control_allowed = true;
    status_mode = StatusMode.rd_tpec;
    control_mode = ControlMode.wr_tpec;
    commands = record { speed = false; level = true; enable = true };
    initial_status = 3;
    desired_level = 3;
    resume_level = 0x40;
    watchdog_maxinterval = 30;
    with_ns_addr = false;
    ctrl_status_undef = false;
    second_fan = false;
    second_fan_ctl = false;
    lifecycle = Lifecycle.running;
    watchdog = some 7500;
  };
}

abbrev events : List Event
events =
    Event.write ("level 200" ∷ []) ∷ Event.store_pwm (some 255) ∷ Event.fire ∷ Event.resume ∷ []

run-safe_example : IsSafe (run firmware text events laptop).ec
run-safe_example =
    run-safe firmware IsSafe firmware-IsFanSafe text events laptop (IsSafe.plain (omega arith))

watchdog_fire-persists_example :
    let (result, t₁) = set_enable firmware (expired laptop) in
    let t' = (watchdog_fire firmware laptop).1 in
    ((result ≡ Result.done tt) × (t' ≡ t₁))
    ⊎ ((code : ℕ) × (result ≡ Result.failed code) × (t'.fan.watchdog ≡ some 7500))
watchdog_fire-persists_example =
    watchdog_fire-persists firmware ControlMode.wr_tpec 30 laptop
      (record { mode_is = refl; runs = refl; interval_is = refl }) (λ e. cc) (omega arith)

-- The same firmware, with the register kept as a byte.
abbrev register : Firmware ℕ
register = record firmware {
  ec_read = λ e i. (e, some (e % 256));
  ecrd = λ e i. (e, some (e % 256));
}

register-IsRegister : IsRegister register (λ e. e % 256)
register-IsRegister = record {
  byte = λ e. omega arith;
  locks = λ e. refl;
  reads = λ e. (refl, inr refl);
  reads_ecrd = λ e. (refl, inr refl);
  writes = λ e v small. omega (arith, small);
  writes_ecwr = λ e v small. omega (arith, small);
}

laptop-IsUnder : IsUnder (λ e. e % 256) 3 0x40 laptop
laptop-IsUnder = record {
  status_is = refl;
  allows = refl;
  reads_tpec = refl;
  writes_register = inl refl;
  defined = refl;
  one_fan = refl;
  resumes = refl;
}

fan_resume-faster_example :
    let s' = (fan_resume register laptop).1.ec % 256 in (s' ≡ 3) ⊎ (3 ≤ slowest s')
fan_resume-faster_example =
    fan_resume-faster register (λ e. e % 256) register-IsRegister 3 0x40 laptop laptop-IsUnder
      (omega arith) refl
