-- ===== src/Thinkpad/Fan.antt =====
-- thinkpad_acpi.c: the fan, from `fan_quirk1_setup` to `fan_watchdog_fire`. An int of the source is
-- its word of 32 bits, so that a negative one is above 7.
pub mod Control
pub mod Commands
pub mod Start
pub mod Power
pub mod Safe
pub mod Watchdog
pub mod Register
pub mod Resume
use debugging.Common.{
  ℕ, ◌+◌, ◌*◌, ◌/◌, ◌%◌, ◌^◌, Bool, true, false, not, Option, none, some, bit_or, ltb, ◌==◌, ◌&&◌,
  ◌||◌, if◌then◌else◌,
}
use debugging.Common.Bits.{bit}
use debugging.Kernel.{u8, eio, einval}
use debugging.Thinkpad.{
  Firmware, StatusMode, ControlMode, Lifecycle, FanState, Tp, Action, Result, eperm, enxio,
  erestartsys, give, fail, call, look, required, attempt, change, ◌>>=◌, ◌>>◌,
}
use debugging.Thinkpad.Ec.{acpi_ec_read, acpi_ec_write}

-- The registers of the EC.
abbrev pub fan_status_offset : ℕ
fan_status_offset = 0x2f

abbrev pub fan_rpm_offset : ℕ
fan_rpm_offset = 0x84

abbrev pub fan_select_offset : ℕ
fan_select_offset = 0x31

abbrev pub fan_status_offset_ns : ℕ
fan_status_offset_ns = 0x93

abbrev pub fan2_status_offset_ns : ℕ
fan2_status_offset_ns = 0x96

abbrev pub fan_rpm_status_ns : ℕ
fan_rpm_status_ns = 0x95

abbrev pub fan2_rpm_status_ns : ℕ
fan2_rpm_status_ns = 0x98

abbrev pub tp_ec_fan_fullspeed : ℕ
tp_ec_fan_fullspeed = 0x40

abbrev pub tp_ec_fan_auto : ℕ
tp_ec_fan_auto = 0x80

abbrev pub fan_last_level : ℕ
fan_last_level = 0x100

-- The bits TP_EC_FAN_FULLSPEED and TP_EC_FAN_AUTO of a level or a status.
abbrev pub is_fullspeed : ℕ → Bool
is_fullspeed level = bit level 6

abbrev pub is_auto : ℕ → Bool
is_auto level = bit level 7

-- FAN_RPM_CAL_CONST over the byte, or 0.
abbrev pub rpm_ns : ℕ → ℕ
rpm_ns lo = if lo == 0 then 0 else 491520 / lo

module _ {E : Type 0} where
  -- `fan_quirk1_setup`
  unfoldable pub quirk1_setup : Action E (Unit {0})
  quirk1_setup =
      change (λ f. if f.initial_status == 0x07 then record f { ctrl_status_undef = true } else f)

  -- `fan_quirk1_handle`
  unfoldable pub quirk1_handle : ℕ → Action E ℕ
  quirk1_handle status = do
    f ← look (λ f. f)
    if not f.ctrl_status_undef
        then give status
        else if not (status == f.initial_status)
        then change (λ f. record f { ctrl_status_undef = false }) >> give status
        else give tp_ec_fan_auto

  -- `fan_update_desired_level`
  unfoldable pub update_desired_level : ℕ → Action E (Unit {0})
  update_desired_level status =
      if is_auto status || is_fullspeed status
      then give tt
      else change (λ f. record f { desired_level = if ltb 7 status then 7 else status })

module _ {E : Type 0} (fw : Firmware E) where
  -- The read, the change and the write of fan_select_offset.
  unfoldable pub reselect : (ℕ → ℕ) → Option ℕ → Action E Bool
  reselect f none = give false
  reselect f (some val) = call (λ e. fw.ec_write e fan_select_offset (f val))

  -- `fan_select_fan1`
  unfoldable pub select_fan1 : Action E Bool
  unfolding reselect
  select_fan1 = do
    second ← look (λ f. f.second_fan)
    if second
        then (call (λ e. fw.ec_read e fan_select_offset) >>= reselect (λ val. val / 2 * 2))
        else give true

  -- `fan_select_fan2`
  unfoldable pub select_fan2 : Action E Bool
  unfolding reselect
  select_fan2 = do
    second ← look (λ f. f.second_fan)
    if not second
        then give false
        else (call (λ e. fw.ec_read e fan_select_offset) >>= reselect (λ val. bit_or val 1))

  unfoldable pub status_by : StatusMode → Action E ℕ
  status_by StatusMode.rd_acpi_gfan = do res ← call fw.gfan; v ← required eio res; give (v % 8)
  status_by StatusMode.rd_tpec = do
    s ← acpi_ec_read fw fan_status_offset
    status ← required eio s
    quirk1_handle status
  status_by StatusMode.rd_tpec_ns = do s ← acpi_ec_read fw fan_status_offset_ns; required eio s
  status_by StatusMode.no_status = fail enxio

  -- `fan_get_status`
  unfoldable pub get_status : Action E ℕ
  unfolding status_by
  get_status = look (λ f. f.status_mode) >>= status_by

  -- `mutex_lock_killable`
  unfoldable pub lock_killable : Action E (Unit {0})
  lock_killable = do locked ← call fw.lock; if locked then give tt else fail erestartsys

  -- `fan_get_status_safe`
  unfoldable pub get_status_safe : Action E ℕ
  get_status_safe = do
    lock_killable
    s ← get_status
    f ← look (λ f. f)
    if f.with_ns_addr then give tt else update_desired_level s
    give s

  -- The two bytes of the tachometer, the low one first.
  tachometer : Action E ℕ
  tachometer = do
    lo ← acpi_ec_read fw fan_rpm_offset
    l ← required eio lo
    hi ← acpi_ec_read fw (fan_rpm_offset + 1)
    h ← required eio hi
    give (h * 2 ^ 8 + l)

  speed_by : StatusMode → Action E ℕ
  unfolding tachometer
  speed_by StatusMode.rd_tpec = do ok ← select_fan1; if ok then tachometer else fail eio
  speed_by StatusMode.rd_tpec_ns = do
    lo ← acpi_ec_read fw fan_rpm_status_ns
    l ← required eio lo
    give (rpm_ns l)
  speed_by _ = fail enxio

  -- `fan_get_speed`
  unfoldable pub get_speed : Action E ℕ
  unfolding speed_by
  get_speed = look (λ f. f.status_mode) >>= speed_by

  speed2_by : StatusMode → Action E ℕ
  unfolding tachometer
  speed2_by StatusMode.rd_tpec = do
    ok ← select_fan2
    if not ok then fail eio else do r ← attempt tachometer; select_fan1; required eio r
  speed2_by StatusMode.rd_tpec_ns = do
    s ← acpi_ec_read fw fan2_status_offset_ns
    status ← required eio s
    if not (bit status 2)
        then fail eio
        else do lo ← acpi_ec_read fw fan2_rpm_status_ns; l ← required eio lo; give (rpm_ns l)
  speed2_by _ = fail enxio

  -- `fan2_get_speed`
  unfoldable pub get_speed2 : Action E ℕ
  unfolding speed2_by
  get_speed2 = look (λ f. f.status_mode) >>= speed2_by
