-- ===== src/Thinkpad/Fan/Start.antt =====
-- thinkpad_acpi.c: `fan_init`. The quirks of the machine, which the table fan_quirk_table gives by the
-- firmware's version, are an argument.
use debugging.Common.{ℕ, Bool, true, false, not, Option, none, some, ◌==◌, ◌||◌, if◌then◌else◌}
use debugging.Kernel.{enodev}
use debugging.Thinkpad.{
  Firmware, StatusMode, ControlMode, Commands, FanState, Action, give, fail, look, attempt, change,
  ◌>>=◌, ◌>>◌,
}
use debugging.Thinkpad.Ec.{acpi_ec_read}
use debugging.Thinkpad.Fan.{fan_status_offset, quirk1_setup, get_status_safe, get_speed2}

-- TPACPI_FAN_Q1, _2FAN, _2CTL, _NOFAN and _NS
pub record Quirks : Type 0 where
  pub q1 : Bool
  pub two_fans : Bool
  pub two_controls : Bool
  pub no_fan : Bool
  pub ns : Bool

-- FAN_NOT_PRESENT
abbrev pub fan_not_present : ℕ
fan_not_present = 65535

abbrev pub no_commands : Commands
no_commands = record { speed = false; level = false; enable = false }

-- The variables that `fan_init` sets first.
abbrev pub cleared : FanState → FanState
cleared f = record f {
  status_mode = StatusMode.no_status;
  control_mode = ControlMode.no_control;
  commands = no_commands;
  watchdog_maxinterval = 0;
  ctrl_status_undef = false;
  second_fan = false;
  second_fan_ctl = false;
  desired_level = 7;
}

-- A second fan that answers, and one that only the quirks know.
abbrev pub with_second : FanState → FanState
with_second f = record f { second_fan = true; second_fan_ctl = not f.with_ns_addr }

abbrev pub by_quirks : Quirks → FanState → FanState
by_quirks q f = record f {
  second_fan = q.two_fans || q.two_controls;
  second_fan_ctl = q.two_controls || f.second_fan_ctl;
}

abbrev pub is_present : Option ℕ → Bool
is_present none = false
is_present (some speed) = not (speed == fan_not_present)

-- The modes of control, by the ACPI methods of the machine.
abbrev pub controlled : Bool → Bool → Bool → FanState → FanState
controlled sfan gfan fans f =
    if sfan
    then record f {
      control_mode = ControlMode.wr_acpi_sfan;
      commands = record f.commands { level = true; enable = true };
    }
    else if gfan
    then f
    else if fans
    then record f {
      control_mode = ControlMode.wr_acpi_fans;
      commands = record { speed = true; level = true; enable = true };
    }
    else record f {
      control_mode = ControlMode.wr_tpec;
      commands = record f.commands { level = true; enable = true };
    }

-- The master switch.
abbrev pub switched : FanState → FanState
switched f =
    if f.control_allowed
    then f
    else record f { control_mode = ControlMode.no_control; commands = no_commands }

abbrev pub has_status : StatusMode → Bool
has_status StatusMode.no_status = false
has_status _ = true

abbrev pub has_control : ControlMode → Bool
has_control ControlMode.no_control = false
has_control _ = true

module _ {E : Type 0} (fw : Firmware E) where
  -- The second fan is looked for with `second_fan` set.
  probe_second : Quirks → Action E (Unit {0})
  probe_second q = do
    change (λ f. record f { second_fan = true })
    r ← attempt (get_speed2 fw)
    if is_present r then change with_second else change (by_quirks q)

  -- The read of the status register that fills fan_control_initial_status.
  read_initial : Option ℕ → Action E (Unit {0})
  read_initial none = fail enodev
  read_initial (some s) = change (λ f. record f { initial_status = s })

  -- The mode of the status, without GFAN.
  find_status : Quirks → Action E (Unit {0})
  unfolding probe_second read_initial
  find_status q = do
    ns ← look (λ f. f.with_ns_addr)
    if ns then give tt else (acpi_ec_read fw fan_status_offset >>= read_initial)
    change
        (λ f. record f { status_mode = if ns then StatusMode.rd_tpec_ns else StatusMode.rd_tpec })
    if q.q1 then quirk1_setup else give tt
    probe_second q

  -- `fan_init`
  unfoldable pub fan_init : Quirks → Action E (Unit {0})
  unfolding find_status
  fan_init q = do
    change cleared
    if q.no_fan then fail enodev else do
      if q.ns
          then change (λ f. record f { with_ns_addr = true; ctrl_status_undef = true })
          else give tt
      if fw.has_gfan
          then change (λ f. record f { status_mode = StatusMode.rd_acpi_gfan })
          else find_status q
      change (controlled fw.has_sfan fw.has_gfan fw.has_fans)
      change switched
      f ← look (λ f. f)
      if has_status f.status_mode then (attempt (get_status_safe fw) >> give tt) else give tt
      if has_status f.status_mode || has_control f.control_mode then give tt else fail enodev
