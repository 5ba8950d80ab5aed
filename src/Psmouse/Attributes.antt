-- ===== src/Psmouse/Attributes.antt =====
-- psmouse-base.c: the writes to a mouse's files, `psmouse_attr_set_helper`, and the change of the
-- protocol by `psmouse_attr_set_protocol`.
pub mod Ending
use debugging.Common.{
  ℕ, zero, suc, ◌+◌, Bool, true, false, not, Option, none, some, ◌==◌, ◌&&◌, if◌then◌else◌,
}
use debugging.Kernel.{Ps2, eio, enomem, enodev, einval}
use debugging.Psmouse.{Psmouse, PsmouseType, Protocol, State}
use debugging.Psmouse.Receive.{is_ignore, set_state}
use debugging.Psmouse.Command.{reset, activate, deactivate}
use debugging.Psmouse.Resync.{Poll, stop_parent, start_parent}
use debugging.Psmouse.Detect.{Probes}
use debugging.Psmouse.Reconnect.{Hooks, initialize, on_parent, on_mouse, enoent}
use debugging.Psmouse.Switch.{Entry, switch_protocol}
use debugging.Psmouse.Table.{same_type}

-- The input device of the mouse afterwards: the one it had, the new one, or none.
pub data InputDevice : Type 0 where
  kept replaced dropped : InputDevice

-- What the kernel answers: whether there is memory for the new input device, the code of its
-- registration, and for each round over the child ports whether one is left, and after it was
-- unregistered with the lock given up, whether the port is still this driver's. `others` is what
-- other threads do meanwhile.
pub record Answers (D P : Type 0) : Type 0 where
  pub allocated : Bool
  pub register_code : ℕ
  pub has_children : ℕ → Bool
  pub is_ours : ℕ → Bool
  pub others : ℕ → D → Psmouse P → D × Psmouse P

-- The device, the mouse, the mouse of the parent port, and the input device.
pub record Changed (D P Q : Type 0) : Type 0 where
  pub device : D
  pub mouse : Psmouse P
  pub parent : Option (Psmouse Q)
  pub input : InputDevice

module _ {D P : Type 0} where
  -- The loop over the child ports; a code with which the function returns, if it does. `left` is the
  -- number of rounds that may follow.
  unfoldable pub clear_children :
      Answers D P → PsmouseType → ℕ → ℕ → D → Psmouse P → D × Psmouse P × Option ℕ
  clear_children answers type zero k d m = (d, m, if answers.has_children k then some eio else none)
  clear_children answers type (suc left) k d m =
      let (d', m') = answers.others k d m in
      let rest = clear_children answers type left (k + 1) d' m' in
      if not (answers.has_children k)
      then (d, m, none)
      else if not (answers.is_ours k)
      then (d', m', some enodev)
      else if same_type m'.protocol.type type
      then (d', m', some 0)
      else rest

-- `hooks` are the function pointers that the protocol of a mouse sets, `pt_activate` and
-- `pt_deactivate` those of the parent, `entry` the entries of the table.
module _ {D P Q : Type 0} (ps2 parent_ps2 : Ps2 D) (hooks : PsmouseType → Hooks D P Q)
    (pt_activate pt_deactivate : Option (D → Psmouse Q → D × Psmouse Q)) (poll_mouse : Poll D P)
    (probes : Probes (D × Psmouse P)) (by_type : PsmouseType → Protocol) (max_proto : ℕ)
    (entry : PsmouseType → Entry D P) where
  abbrev switched : Entry D P → D → Psmouse P → D × Psmouse P × ℕ
  switched proto = switch_protocol poll_mouse probes by_type max_proto (some proto)

  -- The mouse set up after a change, in the command mode.
  unfoldable pub set_up : ℕ → D → Psmouse P → D × Psmouse P
  set_up now d m =
      let (d', m') = initialize ps2 parent_ps2 (hooks m.protocol.type) max_proto d m in
      (d', set_state now State.cmd_mode m')

  -- `psmouse->disconnect`, and the states that flush the mouse.
  unfoldable pub detach : ℕ → D → Psmouse P → D × Psmouse P
  detach now d m =
      let (d', m') = on_mouse (hooks m.protocol.type).disconnect d m in
      (d', set_state now State.initializing (set_state now State.ignore m'))

  -- The new protocol, or bare PS/2 where it fails.
  unfoldable pub switch_or_bare : Entry D P → D → Psmouse P → D × Psmouse P
  switch_or_bare proto d m =
      let (d₁, m₁, code) = switched proto d m in
      let (d₂, _) = reset ps2 d₁ in
      let (d₃, m₃, _) = switched (entry PsmouseType.ps2) d₂ m₁ in
      if code == 0 then (d₁, m₁) else (d₃, m₃)

  -- The end, from the mouse set up with the new protocol; `old` is the type before.
  unfoldable pub settle_device :
      Answers D P → ℕ → PsmouseType → D → Psmouse P → Option (Psmouse Q) → Changed D P Q × ℕ
  settle_device answers now old d m parent =
      let (d₁, passed) = on_parent pt_activate d parent in
      let (d₂, m₂) = detach now d m in
      let (d₃, m₃, _) = switched (entry old) d₂ m₂ in
      let (d₄, m₄) = set_up now d₃ m₃ in
      if m.protocol.smbus_companion
      then (record { device = d₁; mouse = m; parent = passed; input = InputDevice.dropped }, 0)
      else if answers.register_code == 0
      then (record { device = d₁; mouse = m; parent = passed; input = InputDevice.replaced }, 0)
      else (
        record { device = d₄; mouse = m₄; parent = parent; input = InputDevice.kept },
        answers.register_code,
      )

  -- From the parent's deactivation on.
  unfoldable pub change_protocol :
      Answers D P → ℕ → Entry D P → D → Psmouse P → Option (Psmouse Q) → Changed D P Q × ℕ
  change_protocol answers now proto d m parent =
      let (d₁, passed) = on_parent pt_deactivate d parent in
      let (d₂, m₂) = detach now d₁ m in
      let (d₃, m₃) = switch_or_bare proto d₂ m₂ in
      let (d₄, m₄) = set_up now d₃ m₃ in settle_device answers now m.protocol.type d₄ m₄ passed

  -- From the end of the loop.
  unfoldable pub after_children :
      Answers D P
      → ℕ
      → Entry D P
      → D × Psmouse P × Option ℕ
      → Option (Psmouse Q)
      → Changed D P Q × ℕ
  after_children answers now proto (d, m, some code) parent =
      (record { device = d; mouse = m; parent = parent; input = InputDevice.kept }, code)
  after_children answers now proto (d, m, none) parent =
      change_protocol answers now proto d m parent

  -- `psmouse_attr_set_protocol`, from the entry that the text names. The code 0 is the count.
  unfoldable pub attr_set_protocol :
      Answers D P → ℕ → Option (Entry D P) → D → Psmouse P → Option (Psmouse Q) → Changed D P Q × ℕ
  attr_set_protocol answers now none d m parent =
      (record { device = d; mouse = m; parent = parent; input = InputDevice.kept }, einval)
  attr_set_protocol answers now (some proto) d m parent =
      let stay : Changed D P Q = record {
        device = d;
        mouse = m;
        parent = parent;
        input = InputDevice.kept;
      } in
      if same_type m.protocol.type proto.protocol.type
      then (stay, 0)
      else if not answers.allocated
      then (stay, enomem)
      else after_children answers now proto (clear_children answers proto.protocol.type 3 0 d m)
          parent

  -- A mouse does not report during a protected write, and does again after it; an SMBus companion is
  -- left alone.
  abbrev pub paused : ℕ → D → Psmouse P → D × Psmouse P
  paused now d m =
      let (d', m', _) = deactivate ps2 now d m in
      if m.protocol.smbus_companion then (d, m) else (d', m')

  abbrev pub resumed : ℕ → ℕ → D → Psmouse P → D × Psmouse P
  resumed now code d m =
      let (d', m', _) = activate ps2 now d m in
      if not (code == enodev) && not m.protocol.smbus_companion then (d', m') else (d, m)

  -- `psmouse_attr_set_helper`, for the file whose write is `set`: the code of the lock, whether the
  -- file is that of the protocol, and whether the mouse is not to report during the write.
  unfoldable pub attr_set_helper :
      ℕ
      → Bool
      → Bool
      → (D → Psmouse P → Option (Psmouse Q) → Changed D P Q × ℕ)
      → ℕ
      → D
      → Psmouse P
      → Option (Psmouse Q)
      → Changed D P Q × ℕ
  attr_set_helper lock_code is_protocol protect set now d m parent =
      let stay : Changed D P Q = record {
        device = d;
        mouse = m;
        parent = parent;
        input = InputDevice.kept;
      } in
      let (d₁, stopped) = stop_parent parent_ps2 now d parent in
      let (d₂, m₂) = paused now d₁ m in
      let (c, code) = set d₂ m₂ stopped in
      let (d₃, m₃) = resumed now code c.device c.mouse in
      let (d₄, started) = start_parent parent_ps2 now d₃ c.parent in
      if not (lock_code == 0)
      then (stay, lock_code)
      else if m.protocol.smbus_companion && not is_protocol
      then (stay, enoent)
      else if not protect
      then set d m parent
      else if is_ignore m.state
      then (stay, enodev)
      else (record c { device = d₄; mouse = m₃; parent = started }, code)
