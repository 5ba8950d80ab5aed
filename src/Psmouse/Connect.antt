-- ===== src/Psmouse/Connect.antt =====
-- psmouse-base.c: `psmouse_connect` and `psmouse_disconnect`, from the port that serio finds to the
-- mouse and back. The answers of the kernel are a record: whether there is memory, and the codes of
-- `serio_open` and `input_register_device`. The flush of the work queue is not modelled.
pub mod Ending
use debugging.Common.{
  ℕ, ◌≡◌, ◌≢◌, ◌⊎◌, inl, inr, Bool, true, false, not, Option, none, some, refl, arith, ◌==◌, ◌&&◌,
  if◌then◌else◌, Bool-cases,
}
use debugging.Kernel.{Ps2, Reply, enomem, enodev}
use debugging.Psmouse.{Psmouse, PsmouseType, Protocol, State}
use debugging.Psmouse.Receive.{set_state}
use debugging.Psmouse.Command.{probe, activate}
use debugging.Psmouse.Resync.{Poll, stop_parent, start_parent}
use debugging.Psmouse.Detect.{Probes}
use debugging.Psmouse.Reconnect.{Hooks, initialize, on_parent, on_mouse}
use debugging.Psmouse.Switch.{switch_protocol}

pub record Answers : Type 0 where
  pub allocated : Bool
  pub open_code : ℕ
  pub register_code : ℕ

-- The module parameters that a new mouse takes.
pub record Defaults : Type 0 where
  pub rate : ℕ
  pub resolution : ℕ
  pub resetafter : ℕ
  pub resync_time : ℕ

-- A port: the device, the mouse if there is one, the mouse of the parent port, whether the port is
-- open, and whether an input device is registered.
pub record Port (D P Q : Type 0) : Type 0 where
  pub device : D
  pub mouse : Option (Psmouse P)
  pub parent : Option (Psmouse Q)
  pub is_open : Bool
  pub is_registered : Bool

abbrev is_child : {Q : Type 0} → Option (Psmouse Q) → Bool
is_child none = false
is_child (some q) = true

-- `hooks` are the function pointers that the protocol of a mouse sets, `pt_activate` and
-- `pt_deactivate` those of the parent; `blank` is the mouse of kzalloc.
module _ {D P Q : Type 0} (ps2 parent_ps2 : Ps2 D) (hooks : PsmouseType → Hooks D P Q)
    (pt_activate pt_deactivate : Option (D → Psmouse Q → D × Psmouse Q)) (poll_mouse : Poll D P)
    (probes : Probes (D × Psmouse P)) (by_type : PsmouseType → Protocol) (max_proto : ℕ) where
  -- The parameters for a new mouse; one behind a parent has no idle limit.
  abbrev configured : Defaults → Bool → Psmouse P → Psmouse P
  configured defaults child m = record m {
    rate = defaults.rate;
    resolution = defaults.resolution;
    resetafter = defaults.resetafter;
    resync_time = if child then 0 else defaults.resync_time;
  }

  -- The part behind the change of protocol, for a mouse that reports its own events; a code where
  -- the input device is refused.
  unfoldable pub establish : Answers → ℕ → D → Psmouse P → Option (Psmouse Q) → Port D P Q × ℕ
  establish answers now d m parent =
      let own = hooks m.protocol.type in
      let (d₁, m₁) = initialize ps2 parent_ps2 own max_proto d (set_state now State.cmd_mode m) in
      let (d₂, m₂) = on_mouse own.disconnect d₁ m₁ in
      let (d₃, passed) = on_parent pt_activate d₁ parent in
      let (d₄, m₄, _) = activate ps2 now d₃ m₁ in
      let (d₅, passed') = on_parent pt_activate d parent in
      if m.protocol.smbus_companion
      then (
        record {
          device = d₅;
          mouse = some m;
          parent = passed';
          is_open = true;
          is_registered = false;
        },
        0,
      )
      else if not (answers.register_code == 0)
      then (
        record {
          device = d₂;
          mouse = none;
          parent = parent;
          is_open = false;
          is_registered = false;
        },
        answers.register_code,
      )
      else (
        record {
          device = d₄;
          mouse = some m₄;
          parent = passed;
          is_open = true;
          is_registered = true;
        },
        0,
      )

  -- From the deactivated parent to the code, the parent's activation left out.
  unfoldable pub attach :
      Answers → Defaults → ℕ → D → Psmouse P → Option (Psmouse Q) → Port D P Q × ℕ
  attach answers defaults now d blank parent =
      let refused : D → ℕ → Port D P Q × ℕ = λ u code. (
        record {
          device = u;
          mouse = none;
          parent = parent;
          is_open = false;
          is_registered = false;
        },
        code,
      ) in
      let m = set_state now State.initializing blank in
      let (d₁, code) = probe ps2 d in
      let (d₂, m₂, _) =
        switch_protocol poll_mouse probes by_type max_proto none d₁
          (configured defaults (is_child parent) m) in
      if not answers.allocated
      then refused d enomem
      else if not (answers.open_code == 0)
      then refused d answers.open_code
      else if not (code == 0)
      then refused d₁ enodev
      else establish answers now d₂ m₂ parent

  -- `psmouse_connect`
  unfoldable pub connect :
      Answers → Defaults → ℕ → D → Psmouse P → Option (Psmouse Q) → Port D P Q × ℕ
  connect answers defaults now d blank parent =
      let (d₁, stopped) = stop_parent parent_ps2 now d parent in
      let (port, code) = attach answers defaults now d₁ blank stopped in
      let (d₂, started) = start_parent parent_ps2 now port.device port.parent in
      (record port { device = d₂; parent = started }, code)

  -- `psmouse_disconnect`, of a port with a mouse.
  unfoldable pub disconnect : ℕ → D → Psmouse P → Option (Psmouse Q) → Port D P Q
  disconnect now d m parent =
      let own = hooks m.protocol.type in
      let (d₁, stopped) = stop_parent parent_ps2 now d parent in
      let (d₂, _) = on_mouse own.disconnect d₁ (set_state now State.cmd_mode m) in
      let (d₃, passed) = on_parent pt_deactivate d₂ stopped in
      let (d₄, started) = start_parent parent_ps2 now d₃ passed in
      record { device = d₄; mouse = none; parent = started; is_open = false; is_registered = false }
