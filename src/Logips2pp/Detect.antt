-- ===== src/Logips2pp/Detect.antt =====
-- logips2pp.c: the commands of PS2++, from `ps2pp_cmd` to `ps2pp_detect`. A sliced command is
-- libps2's, over the same device.
use debugging.Common.{
  ℕ, ◌+◌, ◌*◌, ◌/◌, ◌%◌, Bool, true, false, not, Option, none, some, [], ◌∷◌, ◌++◌, leb, ltb, ◌==◌,
  ◌&&◌, ◌||◌, if◌then◌else◌,
}
use debugging.Common.Bits.{of_bool}
use debugging.Kernel.{Ps2, Bytes, bytes, update, einval, Button}
use debugging.Psmouse.{Psmouse}
use debugging.Psmouse.Standard.{Description}
use debugging.Psmouse.Command.{set_resolution, cmd_setres, cmd_setscale11, cmd_getinfo}
use debugging.Logips2pp.Models.{Kind, Info, get_model_info, set_model_properties}

abbrev pub enxio : ℕ
enxio = 6

abbrev pub is_tp3 : Kind → Bool
is_tp3 Kind.tp3 = true
is_tp3 _ = false

-- What `ps2pp_setup_protocol` puts into the mouse: the handler with its size, and the functions
-- `ps2pp_set_resolution` and `ps2pp_disconnect`.
pub record Protocol : Type 0 where
  pub handler : Bool
  pub functions : Bool

-- A `ps2pp_detect`: the device, the code, the description and the model, if they were written, and
-- the functions installed.
pub record Detection (D : Type 0) : Type 0 where
  pub device : D
  pub code : ℕ
  pub description : Description
  pub model : Option ℕ
  pub protocol : Protocol

abbrev pub untouched : Protocol
untouched = record { handler = false; functions = false }

-- `ps2pp_setup_protocol`, with the code of the attribute's file.
unfoldable pub setup_protocol : ℕ → Info → Protocol × ℕ
setup_protocol created i =
    if is_tp3 i.kind
    then (record { handler = true; functions = false }, 0)
    else (record { handler = true; functions = true }, created)

-- The three tests of the answer to the knock.
abbrev pub is_answer : Bytes → Bool
is_answer param =
    param 0 / 8 % 16 == 9
    && ((param 1 / 16 == 12 && param 1 % 4 == 2) && param 2 % 4 == param 1 / 4 % 4)

-- The model and the buttons in the answer to the GETINFO.
abbrev pub model_of : Bytes → ℕ
model_of param = param 0 / 16 % 8 + param 0 % 16 * 8

-- What `ps2pp_detect` writes of a mouse if the properties are to be set.
abbrev pub with_middle : ℕ → Description → Description
with_middle buttons s =
    if leb 3 buttons then record s { keys = s.keys ++ Button.middle ∷ [] } else s

abbrev pub announce : Option Info → Bool → ℕ → Description → Description
announce none use_ps2pp buttons s = with_middle buttons s
announce (some i) use_ps2pp buttons s = set_model_properties i use_ps2pp (with_middle buttons s)

-- The protocol of a mouse that speaks PS2++, or nothing.
abbrev pub install : ℕ → Option Info → Bool → Protocol × ℕ
install created none use_ps2pp = (untouched, 0)
install created (some i) use_ps2pp = if use_ps2pp then setup_protocol created i else (untouched, 0)

module _ {D : Type 0} (ps2 : Ps2 D) (sliced_command : D → ℕ → D × ℕ) where
  -- `ps2pp_cmd`: the device, the array and the code.
  unfoldable pub ps2pp_cmd : D → Bytes → ℕ → D × Bytes × ℕ
  ps2pp_cmd d param command =
      let (d', error) = sliced_command d command in
      let r = ps2.command d' 0x03eb param in
      if not (error == 0) then (d', param, error) else (r.device, r.param, r.code)

  -- `ps2pp_set_smartscroll`
  unfoldable pub set_smartscroll : D → Bool → D
  set_smartscroll d on =
      let (d₁, param, _) = ps2pp_cmd d ps2.uninit 0x32 in
      let r₁ = ps2.command d₁ cmd_setres (update param 0 0) in
      let r₂ = ps2.command r₁.device cmd_setres r₁.param in
      let r₃ = ps2.command r₂.device cmd_setres r₂.param in
      (ps2.command r₃.device cmd_setres (update r₃.param 0 (of_bool on))).device

  -- `ps2pp_attr_set_smartscroll`, with what `kstrtouint` gives: the device, the field, and 0 for
  -- `count` or the code of an error.
  unfoldable pub attr_set_smartscroll : D → Bool → ℕ × ℕ → D × Bool × ℕ
  attr_set_smartscroll d smartscroll (err, value) =
      if not (err == 0)
      then (d, smartscroll, err)
      else if ltb 1 value
      then (d, smartscroll, einval)
      else (set_smartscroll d (value == 1), value == 1, 0)

  -- `ps2pp_set_resolution`
  unfoldable pub ps2pp_set_resolution : {P : Type 0} → ℕ → D → Psmouse P → D × Psmouse P
  ps2pp_set_resolution resolution d m =
      let d₁ = (ps2.command d cmd_setscale11 ps2.uninit).device in
      let d₂ = (ps2.command d₁ cmd_setscale11 ps2.uninit).device in
      let d₃ = (ps2.command d₂ cmd_setscale11 ps2.uninit).device in
      if ltb 400 resolution
      then ((ps2.command d₃ cmd_setres (bytes (3 ∷ []))).device, record m { resolution = 800 })
      else set_resolution ps2 resolution d m

  -- The magic init of a Touch Pad 3, and whether it answers as one.
  unfoldable pub init_touchpad : D → Bytes → D × Bool
  init_touchpad d param =
      let write : D → Bytes → ℕ → ℕ → ℕ → _ =
        λ d p a b c. ps2.command d 0x30d1 (update (update (update p 0 a) 1 b) 2 c) in
      let r₁ = write d param 0x11 0x04 0x68 in
      let r₂ = write r₁.device r₁.param 0x11 0x05 0x0b in
      let r₃ = write r₂.device r₂.param 0x11 0x09 0xc3 in
      let r = ps2.command r₃.device 0x13d1 (update r₃.param 0 0) in
      (r.device, r.code == 0 && (r.param 0 == 0x06 && (r.param 1 == 0x00 && r.param 2 == 0x14)))

  -- The magic knock of a mouse.
  unfoldable pub init_mouse : D → Bytes → D × Bool
  init_mouse d param =
      let (d₁, p₁, _) = ps2pp_cmd d (update (update (update param 0 0) 1 0) 2 0) 0x39 in
      let (d₂, p₂, _) = ps2pp_cmd d₁ p₁ 0xdb in
      if is_answer p₂ then (set_smartscroll d₂ false, true) else (d₂, false)

  -- The init of a known model, or none.
  unfoldable pub init_model : Option Info → D → Bytes → D × Bool
  init_model none d param = (d, false)
  init_model (some i) d param = if is_tp3 i.kind then init_touchpad d param else init_mouse d param

  -- The identification, up to the GETINFO.
  unfoldable pub identify : D → D × Bytes
  identify d =
      let r = ps2.command d cmd_setres (update ps2.uninit 0 0) in
      let d₁ = (ps2.command r.device cmd_setscale11 ps2.uninit).device in
      let d₂ = (ps2.command d₁ cmd_setscale11 ps2.uninit).device in
      let d₃ = (ps2.command d₂ cmd_setscale11 ps2.uninit).device in
      let info = ps2.command d₃ cmd_getinfo (update r.param 1 0) in (info.device, info.param)

  -- `ps2pp_detect`; `created` is the code of the attribute's file.
  unfoldable pub ps2pp_detect : ℕ → Bool → D → Description → Detection D
  ps2pp_detect created set_properties d s =
      let (d₁, param) = identify d in
      let model = model_of param in
      let buttons = param 1 in
      let known = get_model_info model in
      let (d₂, use_ps2pp) = init_model known d₁ param in
      let (protocol, error) = install created known use_ps2pp in
      let named = record s { vendor = some "Logitech" } in
      let code = if use_ps2pp then 0 else enxio in
      if model == 0 || buttons == 0
      then record { device = d₁; code = enxio; description = s; model = none; protocol = untouched }
      else if not set_properties
      then record { device = d₂; code = code; description = s; model = none; protocol = untouched }
      else if not (error == 0)
      then record {
        device = d₂;
        code = error;
        description = named;
        model = some model;
        protocol = protocol;
      }
      else record {
        device = d₂;
        code = code;
        description = announce known use_ps2pp buttons named;
        model = some model;
        protocol = protocol;
      }
