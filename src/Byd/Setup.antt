-- ===== src/Byd/Setup.antt =====
-- byd.c: the commands that detect, initialize and reconnect the touchpad.
use debugging.Common.{
  ℕ, zero, suc, Bool, true, false, not, List, [], ◌∷◌, Option, none, some, ◌==◌, ◌||◌,
  if◌then◌else◌,
}
use debugging.Kernel.{Ps2, Bytes, bytes, eio, enomem, enodev}
use debugging.Psmouse.{Psmouse, State}
use debugging.Psmouse.Receive.{set_state}
use debugging.Psmouse.Command.{reset, cmd_setres, cmd_getinfo, cmd_setrate, cmd_getid, cmd_enable}
use debugging.Byd.{Data}

-- The table `seq` of `byd_reset_touchpad`: commands with their first argument.
abbrev pub seq : List (ℕ × ℕ)
seq =
    (cmd_setrate, 0xc8)
    ∷ (cmd_setrate, 0x64)
    ∷ (cmd_setrate, 0x50)
    ∷ (cmd_getid, 0)
    ∷ (cmd_enable, 0)
    ∷ (0x10e2, 0x00)
    ∷ (0x10e0, 0x02)
    ∷ (0x14e0, 0x01)
    ∷ (0x10d3, 0x01)
    ∷ (0x10d0, 0x04)
    ∷ (0x10d4, 0x02)
    ∷ (0x10d7, 0x04)
    ∷ (0x10d8, 0x04)
    ∷ (0x10db, 0x01)
    ∷ (0x10de, 0x00)
    ∷ (0x10e3, 0x02)
    ∷ (0x10d2, 0x04)
    ∷ (0x10e5, 0x04)
    ∷ (0x10dc, 0x00)
    ∷ (0x10dd, 0x00)
    ∷ (0x10df, 0x00)
    ∷ (0x10e1, 0x00)
    ∷ (0x10d1, 0x02)
    ∷ (0x10e0, 0x00)
    ∷ (0x10e2, 0x01)
    ∷ []

-- The data of kzalloc.
abbrev pub zeroed : Data
zeroed = record {
  timer = none;
  abs_x = 0;
  abs_y = 0;
  last_touch_time = 0;
  btn_left = false;
  btn_right = false;
  touch = false;
}

module _ {D : Type 0} (ps2 : Ps2 D) where
  -- The loop of `byd_reset_touchpad`: the device, and whether all commands succeeded.
  pub send_all : List (ℕ × ℕ) → D → D × Bool
  send_all [] d = (d, true)
  send_all ((command, arg) ∷ rest) d =
      let r = ps2.command d command (bytes (arg ∷ [])) in
      let next = send_all rest r.device in if r.code == 0 then next else (r.device, false)

  -- `byd_reset_touchpad`
  unfoldable pub reset_touchpad : {P : Type 0} → ℕ → D → Psmouse P → D × Psmouse P × ℕ
  reset_touchpad now d m =
      let (d', ok) = send_all seq d in
      if ok then (d', set_state now State.activated m, 0) else (d', m, eio)

  -- `if (ps2_command(ps2dev, param, PSMOUSE_CMD_SETRES)) return -1;`, n times, and then the GETINFO.
  pub knock : ℕ → D → Bytes → D × Bytes × Bool
  knock zero d param = let r = ps2.command d cmd_getinfo param in (r.device, r.param, r.code == 0)
  knock (suc n) d param =
      let r = ps2.command d cmd_setres param in
      let next = knock n r.device r.param in
      if r.code == 0 then next else (r.device, r.param, false)

  -- `byd_detect`, without the names; the code 1 is the -1 of the source.
  unfoldable pub byd_detect : D → D × ℕ
  byd_detect d =
      let (d', param, ok) = knock 4 d (bytes (0x03 ∷ [])) in
      if not ok
      then (d', 1)
      else if not (param 1 == 0x03) || not (param 2 == 0x64)
      then (d', enodev)
      else (d', 0)

  -- The loop of `byd_reconnect`, with the attempts that remain after this one.
  pub attempts : ℕ → D → D × ℕ
  attempts zero d = byd_detect (reset ps2 d).0
  attempts (suc n) d =
      let (d', error) = byd_detect (reset ps2 d).0 in
      let next = attempts n d' in if error == 0 then (d', 0) else next

  -- `byd_reconnect`
  unfoldable pub byd_reconnect : {P : Type 0} → ℕ → D → Psmouse P → D × Psmouse P × ℕ
  byd_reconnect now d m =
      let (d', error) = attempts 2 d in
      if error == 0 then reset_touchpad now d' m else (d', m, error)

  -- `byd_init`, without the capabilities of the input device.
  unfoldable pub byd_init : Bool → ℕ → D → Psmouse (Option Data) → D × Psmouse (Option Data) × ℕ
  byd_init allocated now d m =
      let (d₁, error) = reset ps2 d in
      let (d₂, m₂, error₂) = reset_touchpad now d₁ m in
      if not (error == 0)
      then (d₁, m, eio)
      else if not (error₂ == 0)
      then (d₂, m₂, eio)
      else if not allocated
      then (d₂, m₂, enomem)
      else (d₂, record m₂ { private = some zeroed; pktsize = 4; resync_time = 0 }, 0)

-- `byd_disconnect`: the timer goes with the data.
unfoldable pub byd_disconnect : Psmouse (Option Data) → Psmouse (Option Data)
byd_disconnect m = record m { private = none }
