-- ===== src/Psmouse.antt =====
-- trackpoint-lost/psmouse.h and the tables of psmouse-base.c: the state of a PS/2 mouse, the types
-- of protocol and the commands. The children hold the operations of psmouse-base.c.
mod Examples
pub mod Report
pub mod Process
pub mod Receive
pub mod Command
pub mod Resync
pub mod Detect
pub mod Standard
pub mod Reconnect
pub mod Switch
pub mod Connect
pub mod Sample
pub mod Table
pub mod Attributes
use debugging.Common.{ℕ, ◌+◌, Bool, true, false, List, [], ◌∷◌, ◌++◌, Option, some}
use debugging.Kernel.{Bytes, Effect}

-- enum psmouse_state
pub data State : Type 0 where
  ignore initializing resyncing cmd_mode activated : State

-- `state <= PSMOUSE_RESYNCING`
abbrev pub le_resyncing : State → Bool
le_resyncing State.cmd_mode = false
le_resyncing State.activated = false
le_resyncing _ = true

abbrev pub is_activated : State → Bool
is_activated State.activated = true
is_activated _ = false

abbrev pub is_resyncing : State → Bool
is_resyncing State.resyncing = true
is_resyncing _ = false

-- psmouse_ret_t, the codes of a protocol handler
pub data Ret : Type 0 where
  bad_data good_data full_packet : Ret

-- enum psmouse_type
pub data PsmouseType : Type 0 where
  none ps2 ps2pp thinkps genps imps imex synaptics alps lifebook trackpoint : PsmouseType
  touchkit_ps2 cortron hgpk elantech fsp synaptics_relative cypress focaltech : PsmouseType
  vmmouse byd synaptics_smbus elantech_smbus auto : PsmouseType

-- The value of the enumerator.
abbrev pub rank : PsmouseType → ℕ
rank PsmouseType.none = 0
rank PsmouseType.ps2 = 1
rank PsmouseType.ps2pp = 2
rank PsmouseType.thinkps = 3
rank PsmouseType.genps = 4
rank PsmouseType.imps = 5
rank PsmouseType.imex = 6
rank PsmouseType.synaptics = 7
rank PsmouseType.alps = 8
rank PsmouseType.lifebook = 9
rank PsmouseType.trackpoint = 10
rank PsmouseType.touchkit_ps2 = 11
rank PsmouseType.cortron = 12
rank PsmouseType.hgpk = 13
rank PsmouseType.elantech = 14
rank PsmouseType.fsp = 15
rank PsmouseType.synaptics_relative = 16
rank PsmouseType.cypress = 17
rank PsmouseType.focaltech = 18
rank PsmouseType.vmmouse = 19
rank PsmouseType.byd = 20
rank PsmouseType.synaptics_smbus = 21
rank PsmouseType.elantech_smbus = 22
rank PsmouseType.auto = 23

abbrev pub is_hgpk : PsmouseType → Bool
is_hgpk PsmouseType.hgpk = true
is_hgpk _ = false

-- PSMOUSE_RET_BAT and PSMOUSE_RET_ID
abbrev pub ret_bat : ℕ
ret_bat = 0xaa

abbrev pub ret_id : ℕ
ret_id = 0x00

-- struct psmouse_protocol, without the function pointers and the names
pub record Protocol : Type 0 where
  pub type : PsmouseType
  pub maxproto : Bool
  pub ignore_parity : Bool
  pub try_passthru : Bool
  pub smbus_companion : Bool

-- struct psmouse. `private` is the protocol's own data; the function pointers are arguments of the
-- functions that call them; `effects` collects what the driver asks of the kernel. `flags` is
-- ps2dev.flags, and `a4tech_2wheels` the module parameter.
pub record Psmouse (P : Type 0) : Type 0 where
  pub private : P
  pub protocol : Protocol
  pub packet : Bytes
  pub badbyte : ℕ
  pub pktcnt : ℕ
  pub pktsize : ℕ
  pub oob_data_type : ℕ
  pub extra_buttons : ℕ
  pub acks_disable_command : Bool
  pub last : ℕ
  pub out_of_sync_cnt : ℕ
  pub num_resyncs : ℕ
  pub state : State
  pub flags : ℕ
  pub rate : ℕ
  pub resolution : ℕ
  pub resetafter : ℕ
  pub resync_time : ℕ
  pub a4tech_2wheels : Bool
  pub effects : List Effect

-- A protocol handler, the field `protocol_handler`.
abbrev pub Handler : Type 0 → Type 0
Handler P = Psmouse P → Psmouse P × Ret

abbrev pub emit : {P : Type 0} → Psmouse P → List Effect → Psmouse P
emit m es = record m { effects = m.effects ++ es }
