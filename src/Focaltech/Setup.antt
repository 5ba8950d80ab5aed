-- ===== src/Focaltech/Setup.antt =====
-- focaltech.c: the commands that reset the touchpad, read its size and switch it to its protocol, in
-- `focaltech_init` and `focaltech_reconnect`.
use debugging.Common.{
  ℕ, ◌*◌, ◌≤◌, ◌≡◌, Bool, true, false, not, Option, none, some, ◌==◌, if◌then◌else◌,
}
use debugging.Kernel.{Ps2, Bytes, update, u8, eio, enomem}
use debugging.Psmouse.Command.{
  reset, cmd_reset_dis, cmd_setscale11, cmd_setres, cmd_getinfo, cmd_enable,
}
use debugging.Focaltech.{Data}

-- A chain of commands over one array: it ends at the first that fails.
pub record Chain (D : Type 0) : Type 0 where
  pub device : D
  pub param : Bytes
  pub ok : Bool

infixl 5 ◌>>=◌
abbrev pub ◌>>=◌ : {D : Type 0} → Chain D → (D → Bytes → Chain D) → Chain D
c >>= k = let next = k c.device c.param in if c.ok then next else c

-- The command of `focaltech_switch_protocol`.
abbrev pub cmd_switch : ℕ
cmd_switch = 0x10f8

-- What `focaltech_init` leaves; `none` where the data was not allocated, or freed again.
pub record Started (D : Type 0) : Type 0 where
  pub device : D
  pub code : ℕ
  pub private : Option Data

-- The data of kzalloc, with the size that was read.
abbrev pub sized : ℕ → ℕ → Data
sized x_max y_max = record {
  x_max = x_max;
  y_max = y_max;
  fingers = λ i. record { active = false; valid = false; x = 0; y = 0 };
  width = 0;
  pressed = false;
}

module _ {D : Type 0} (ps2 : Ps2 D) where
  abbrev pub send : ℕ → D → Bytes → Chain D
  send cmd d param =
      let r = ps2.command d cmd param in
      record { device = r.device; param = r.param; ok = r.code == 0 }

  -- `param[0] = value;` and a command
  abbrev pub send_value : ℕ → ℕ → D → Bytes → Chain D
  send_value value cmd d param = send cmd d (update param 0 value)

  -- `focaltech_switch_protocol`
  unfoldable pub switch_protocol : D → Chain D
  switch_protocol d =
      send_value 0 cmd_switch d ps2.uninit
      >>= send cmd_switch
      >>= send cmd_switch
      >>= send_value 1 cmd_switch
      >>= send cmd_setscale11
      >>= send cmd_enable

  -- `focaltech_reset`
  unfoldable pub focaltech_reset : D → D
  focaltech_reset d = (reset ps2 (ps2.command d cmd_reset_dis ps2.uninit).device).0

  -- `focaltech_reconnect`
  unfoldable pub focaltech_reconnect : D → D × ℕ
  focaltech_reconnect d =
      let c = switch_protocol (focaltech_reset d) in (c.device, if c.ok then 0 else eio)

  -- `focaltech_read_register`
  unfoldable pub read_register : ℕ → D → Chain D
  read_register reg d =
      send cmd_setscale11 d ps2.uninit
      >>= send_value 0 cmd_setres
      >>= send cmd_setres
      >>= send cmd_setres
      >>= send_value reg cmd_setres
      >>= send cmd_getinfo

  -- `focaltech_read_size`: the size is in the bytes 1 and 2 of the register 2.
  unfoldable pub read_size : D → Chain D
  read_size d = read_register 2 d

  -- `focaltech_init`, without the capabilities of the input device.
  unfoldable pub focaltech_init : Bool → D → Started D
  focaltech_init allocated d =
      let size = read_size (focaltech_reset d) in
      let switched = switch_protocol size.device in
      let failed : D → Started D =
        λ d'. record { device = focaltech_reset d'; code = eio; private = none } in
      if not allocated
      then record { device = d; code = enomem; private = none }
      else if not size.ok
      then failed size.device
      else if not switched.ok
      then failed switched.device
      else record {
        device = switched.device;
        code = 0;
        private = some (sized (u8 (size.param 1) * 128) (u8 (size.param 2) * 128));
      }

  -- The reading of the size, after the first reset.
  abbrev pub reading : D → Chain D
  reading d = read_size (focaltech_reset d)

  -- How an init ends: with the code 0, the size that the register gave, no finger on the touchpad and
  -- a device that took the whole switch; or at a command that failed while the size was read, or while
  -- the protocol was switched, with the device reset last; or without memory.
  pub data InitEnding (allocated : Bool) (d : D) (r : Started D) : Type 0 where
    ready :
        r.code ≡ 0
        → allocated ≡ true
        → (reading d).ok ≡ true
        → (switch_protocol (reading d).device).ok ≡ true
        → r.device ≡ (switch_protocol (reading d).device).device
        → (s : Data) → r.private ≡ some s
        → s.x_max ≡ u8 ((reading d).param 1) * 128
        → s.y_max ≡ u8 ((reading d).param 2) * 128
        → (s.x_max ≤ 32640) × (s.y_max ≤ 32640)
        → ((i : ℕ) → ((s.fingers i).active ≡ false) × ((s.fingers i).valid ≡ false))
        → InitEnding allocated d r
    unread :
        allocated ≡ true
        → (reading d).ok ≡ false
        → r.code ≡ eio
        → r.private ≡ none
        → r.device ≡ focaltech_reset (reading d).device
        → InitEnding allocated d r
    stuck :
        allocated ≡ true
        → (reading d).ok ≡ true
        → (switch_protocol (reading d).device).ok ≡ false
        → r.code ≡ eio
        → r.private ≡ none
        → r.device ≡ focaltech_reset (switch_protocol (reading d).device).device
        → InitEnding allocated d r
    no_memory :
        allocated ≡ false
        → r.code ≡ enomem
        → r.private ≡ none
        → r.device ≡ d
        → InitEnding allocated d r
