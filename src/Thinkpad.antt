-- ===== src/Thinkpad.antt =====
-- thinkpad-acpi/thinkpad_acpi.c: the fan of a ThinkPad, under the firmware's embedded controller (EC)
-- and its ACPI methods. The state of the driver, the firmware as an interface, and the actions of
-- the driver on both.
mod Examples
pub mod Keeps
pub mod Gives
pub mod Ec
pub mod Fan
use debugging.Common.{ℕ, Bool, Option, none, some, if◌then◌else◌}

-- Numbers of <errno.h> that psmouse does not use.
abbrev pub eperm : ℕ
eperm = 1

abbrev pub enxio : ℕ
enxio = 6

abbrev pub enosys : ℕ
enosys = 38

abbrev pub erestartsys : ℕ
erestartsys = 512

-- What the driver uses of the firmware and of the kernel, over their state `E`. `ec_read` and
-- `ec_write` are the kernel's; `ecrd`, `ecwr`, `gfan`, `sfan` and `fans` the ACPI methods behind the
-- handles of these names, which a machine has or not; `lock` waits for the mutex, and fails where
-- the task is killed.
pub record Firmware (E : Type 0) : Type 0 where
  pub ec_read : E → ℕ → E × Option ℕ
  pub ec_write : E → ℕ → ℕ → E × Bool
  pub has_ecrd : Bool
  pub ecrd : E → ℕ → E × Option ℕ
  pub has_ecwr : Bool
  pub ecwr : E → ℕ → ℕ → E × Bool
  pub has_gfan : Bool
  pub gfan : E → E × Option ℕ
  pub has_sfan : Bool
  pub sfan : E → ℕ → E × Bool
  pub has_fans : Bool
  pub fans : E → ℕ → ℕ → ℕ → E × Bool
  pub lock : E → E × Bool
  pub msecs_to_jiffies : ℕ → ℕ

-- enum fan_status_access_mode
pub data StatusMode : Type 0 where
  no_status rd_acpi_gfan rd_tpec rd_tpec_ns : StatusMode

-- enum fan_control_access_mode
pub data ControlMode : Type 0 where
  no_control wr_acpi_sfan wr_tpec wr_acpi_fans : ControlMode

-- enum fan_control_commands, as a set
pub record Commands : Type 0 where
  pub speed : Bool
  pub level : Bool
  pub enable : Bool

-- tpacpi_lifecycle
pub data Lifecycle : Type 0 where
  init running exiting : Lifecycle

-- The variables fan_* of the driver and the fields of tp_features about the fan. `watchdog` is the
-- delay of fan_watchdog_task while it is pending.
pub record FanState : Type 0 where
  pub control_allowed : Bool
  pub status_mode : StatusMode
  pub control_mode : ControlMode
  pub commands : Commands
  pub initial_status : ℕ
  pub desired_level : ℕ
  pub resume_level : ℕ
  pub watchdog_maxinterval : ℕ
  pub with_ns_addr : Bool
  pub ctrl_status_undef : Bool
  pub second_fan : Bool
  pub second_fan_ctl : Bool
  pub lifecycle : Lifecycle
  pub watchdog : Option ℕ

pub record Tp (E : Type 0) : Type 0 where
  pub ec : E
  pub fan : FanState

-- What a function of the driver returns: a value, or -n for the code n.
pub data Result (A : Type 0) : Type 0 where
  done : A → Result A
  failed : ℕ → Result A

abbrev pub Action : Type 0 → Type 0 → Type 0
Action E A = Tp E → Result A × Tp E

module _ {E A : Type 0} where
  unfoldable pub give : A → Action E A
  give a t = (Result.done a, t)

  unfoldable pub fail : ℕ → Action E A
  fail code t = (Result.failed code, t)

  -- A call of the firmware.
  unfoldable pub call : (E → E × A) → Action E A
  call f t = let (e, a) = f t.ec in (Result.done a, record t { ec = e })

  unfoldable pub look : (FanState → A) → Action E A
  look f t = (Result.done (f t.fan), t)

  -- The value, or the code where there is none.
  unfoldable pub required : ℕ → Option A → Action E A
  required code none t = (Result.failed code, t)
  required code (some a) t = (Result.done a, t)

  caught : Result A × Tp E → Result (Option A) × Tp E
  caught (Result.done a, t) = (Result.done (some a), t)
  caught (Result.failed code, t) = (Result.done none, t)

  -- A call whose code is only compared with 0.
  unfoldable pub attempt : Action E A → Action E (Option A)
  unfolding caught
  attempt m t = caught (m t)

unfoldable pub change : {E : Type 0} → (FanState → FanState) → Action E (Unit {0})
change f t = (Result.done tt, record t { fan = f t.fan })

module _ {E A B : Type 0} where
  followed : Result A × Tp E → (A → Action E B) → Result B × Tp E
  followed (Result.done a, t) f = f a t
  followed (Result.failed code, t) f = (Result.failed code, t)

  infixl 10 ◌>>=◌ ◌>>◌
  unfoldable pub ◌>>=◌ : Action E A → (A → Action E B) → Action E B
  unfolding followed
  ◌>>=◌ m f t = followed (m t) f

  abbrev pub ◌>>◌ : Action E A → Action E B → Action E B
  m >> n = m >>= λ _. n
