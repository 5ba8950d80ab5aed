-- ===== src/Psmouse/Standard.antt =====
-- psmouse-base.c: the detect functions of the standard protocols, from `genius_detect` to
-- `cortron_detect`, and what they set in the mouse: the names, the capabilities announced, and the
-- size of the packet.
pub mod Knock
use debugging.Common.{
  ℕ, Bool, true, false, not, Option, none, some, List, [], ◌∷◌, ◌++◌, ◌==◌, ◌||◌, if◌then◌else◌,
}
use Prim.Native.String.{String}
use debugging.Kernel.{Ps2, Reply, Bytes, update, enodev, Button, Axis}
use debugging.Psmouse.Command.{cmd_setscale11, cmd_setres, cmd_getinfo, cmd_getid, cmd_setrate}

-- The part of struct psmouse and of its input device that a detect function writes.
pub record Description : Type 0 where
  pub vendor : Option String
  pub name : Option String
  pub pktsize : ℕ
  pub keys : List Button
  pub rels : List Axis

-- `if (!field) field = value;`
abbrev pub or_else : Option String → String → Option String
or_else none value = some value
or_else (some v) value = some v

-- A detect function's device, description and code.
pub record Detected (D : Type 0) : Type 0 where
  pub device : D
  pub description : Description
  pub code : ℕ

-- The capabilities and names of each protocol.
abbrev pub genius : Description → Description
genius s = record s {
  keys = s.keys ++ Button.middle ∷ Button.extra ∷ Button.side ∷ [];
  rels = s.rels ++ Axis.wheel ∷ [];
  vendor = some "Genius";
  name = some "Mouse";
  pktsize = 4;
}

abbrev pub intellimouse : Description → Description
intellimouse s = record s {
  keys = s.keys ++ Button.middle ∷ [];
  rels = s.rels ++ Axis.wheel ∷ [];
  vendor = or_else s.vendor "Generic";
  name = or_else s.name "Wheel Mouse";
  pktsize = 4;
}

abbrev pub im_explorer : Description → Description
im_explorer s = record s {
  keys = s.keys ++ Button.middle ∷ Button.side ∷ Button.extra ∷ [];
  rels = s.rels ++ Axis.wheel ∷ Axis.hwheel ∷ [];
  vendor = or_else s.vendor "Generic";
  name = or_else s.name "Explorer Mouse";
  pktsize = 4;
}

abbrev pub thinking : Description → Description
thinking s = record s {
  keys = s.keys ++ Button.middle ∷ Button.extra ∷ [];
  vendor = some "Kensington";
  name = some "ThinkingMouse";
}

abbrev pub bare : Description → Description
bare s = record s {
  vendor = or_else s.vendor "Generic";
  name = or_else s.name "Mouse";
  keys = s.keys ++ Button.middle ∷ [];
}

abbrev pub cortron : Description → Description
cortron s = record s {
  vendor = some "Cortron";
  name = some "PS/2 Trackball";
  keys = s.keys ++ Button.middle ∷ Button.side ∷ [];
}

-- The description, written if the properties are to be set.
abbrev pub described : Bool → (Description → Description) → Description → Description
described set_properties f s = if set_properties then f s else s

-- `ps2bare_detect` and `cortron_detect`
unfoldable pub ps2bare_detect : {D : Type 0} → Bool → D → Description → Detected D
ps2bare_detect set_properties d s = record {
  device = d;
  description = described set_properties bare s;
  code = 0;
}

unfoldable pub cortron_detect : {D : Type 0} → Bool → D → Description → Detected D
cortron_detect set_properties d s = record {
  device = d;
  description = described set_properties cortron s;
  code = 0;
}

module _ {D : Type 0} (ps2 : Ps2 D) where
  -- A command over the array, whatever its code.
  abbrev pub send : ℕ → D × Bytes → D × Bytes
  send cmd (d, param) = let r = ps2.command d cmd param in (r.device, r.param)

  -- `param[0] = value; ps2_command(ps2dev, param, PSMOUSE_CMD_SETRATE);` for each value
  unfoldable pub knock : List ℕ → D × Bytes → D × Bytes
  knock [] s = s
  knock (rate ∷ rates) (d, param) = knock rates (send cmd_setrate (d, update param 0 rate))

  -- The common end: the device is refused, or described.
  abbrev pub conclude : Bool → Bool → (Description → Description) → D → Description → Detected D
  conclude found set_properties f d s = record {
    device = d;
    description = if found then described set_properties f s else s;
    code = if found then 0 else enodev;
  }

  unfoldable pub genius_detect : Bool → D → Description → Detected D
  genius_detect set_properties d s =
      let (d₁, p₁) = send cmd_setres (d, update ps2.uninit 0 3) in
      let scale : D → D = λ u. (ps2.command u cmd_setscale11 ps2.uninit).device in
      let (d₂, p₂) = send cmd_getinfo (scale (scale (scale d₁)), p₁) in
      let other = not (p₂ 0 == 0x00) || (not (p₂ 1 == 0x33) || not (p₂ 2 == 0x55)) in
      conclude (not other) set_properties genius d₂ s

  unfoldable pub intellimouse_detect : Bool → D → Description → Detected D
  intellimouse_detect set_properties d s =
      let (d', p) = send cmd_getid (knock (200 ∷ 100 ∷ 80 ∷ []) (d, ps2.uninit)) in
      conclude (p 0 == 3) set_properties intellimouse d' s

  unfoldable pub im_explorer_detect : Bool → D → Description → Detected D
  im_explorer_detect set_properties d s =
      let first = intellimouse_detect false d s in
      let (d', p) = send cmd_getid (knock (200 ∷ 200 ∷ 80 ∷ []) (first.device, ps2.uninit)) in
      let scrolling = (knock (200 ∷ 80 ∷ 40 ∷ []) (d', p)).0 in
      conclude (p 0 == 4) set_properties im_explorer (if p 0 == 4 then scrolling else d')
        first.description

  unfoldable pub thinking_detect : Bool → D → Description → Detected D
  thinking_detect set_properties d s =
      let start = knock (10 ∷ []) (d, ps2.uninit) in
      let (d₁, p₁) = send cmd_setres (start.0, update start.1 0 0) in
      let (d₂, p₂) =
        send cmd_getid (knock (20 ∷ 60 ∷ 40 ∷ 20 ∷ 20 ∷ 60 ∷ 40 ∷ 20 ∷ 20 ∷ []) (d₁, p₁)) in
      conclude (p₂ 0 == 2) set_properties thinking d₂ s
