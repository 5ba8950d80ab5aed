-- ===== src/Lifebook/Setup.antt =====
-- lifebook.c: the modes of the screen, its detection, init and disconnect. What the tables of the
-- firmware say of the machine, and the serial port's name, are arguments.
use debugging.Common.{
  ℕ, ◌*◌, ◌/◌, ◌^◌, Bool, true, false, not, Option, none, some, List, [], ◌∷◌, get_or, ltb, ◌==◌,
  ◌&&◌, ◌||◌, if◌then◌else◌,
}
use debugging.Kernel.{Ps2, bytes, enomem}
use debugging.Psmouse.{Psmouse}
use debugging.Psmouse.Command.{reset, cmd_setres}
use debugging.Lifebook.{Data}

abbrev pub enxio : ℕ
enxio = 6

-- lifebook_present, whether `desired_serio_phys` is set, and lifebook_use_6byte_proto, as the
-- matches of lifebook_dmi_table leave them.
pub record Machine : Type 0 where
  pub present : Bool
  pub limited : Bool
  pub use_6byte : Bool

-- What the kernel answers in `lifebook_create_relative_device`: the two allocations, and the code
-- of `input_register_device`.
pub record Answers : Type 0 where
  pub allocated_priv : Bool
  pub allocated_dev2 : Bool
  pub registered : ℕ

-- The functions and values that `lifebook_init` puts into the mouse.
pub record Started (D : Type 0) : Type 0 where
  pub device : D
  pub code : ℕ
  pub private : Option Data
  pub installed : Bool
  pub model : ℕ
  pub pktsize : ℕ

-- `lifebook_detect`, without the names; `same_phys` is whether the names of the ports are equal.
unfoldable pub lifebook_detect : Machine → Bool → ℕ
lifebook_detect machine same_phys =
    if not machine.present then enxio else if machine.limited && not same_phys then enxio else 0

-- `lifebook_create_relative_device`: the data, or the code of an error.
unfoldable pub create_relative_device : Answers → Option Data × ℕ
create_relative_device a =
    if not a.allocated_priv || not a.allocated_dev2
    then (none, enomem)
    else if not (a.registered == 0)
    then (none, a.registered)
    else (some (record { has_dev2 = true }), 0)

-- The table `params` of `lifebook_set_resolution`.
abbrev pub params : List ℕ
params = 0 ∷ 1 ∷ 2 ∷ 2 ∷ 3 ∷ []

abbrev pub param_of : ℕ → ℕ
param_of resolution =
    get_or params ((if resolution == 0 || ltb 400 resolution then 400 else resolution) / 100) 0

module _ {D : Type 0} (ps2 : Ps2 D) where
  -- `ps2_command(&psmouse->ps2dev, &param, PSMOUSE_CMD_SETRES)`, whose code is not read.
  abbrev pub set_mode : ℕ → D → D
  set_mode mode d = (ps2.command d cmd_setres (bytes (mode ∷ []))).device

  -- `lifebook_absolute_mode`
  unfoldable pub absolute_mode : Machine → D → D × ℕ
  absolute_mode machine d =
      let (d', error) = reset ps2 d in
      if not (error == 0)
      then (d', error)
      else (set_mode (if machine.use_6byte then 0x08 else 0x07) d', 0)

  -- `lifebook_relative_mode`
  unfoldable pub relative_mode : D → D
  relative_mode d = set_mode 0x06 d

  -- `lifebook_set_resolution`
  unfoldable pub lifebook_set_resolution : {P : Type 0} → ℕ → D → Psmouse P → D × Psmouse P
  lifebook_set_resolution resolution d m =
      let p = param_of resolution in (set_mode p d, record m { resolution = 50 * 2 ^ p })

  -- `lifebook_disconnect`
  unfoldable pub lifebook_disconnect : D → Psmouse (Option Data) → D × Psmouse (Option Data)
  lifebook_disconnect d m = ((reset ps2 d).0, record m { private = none })

  -- `lifebook_init`, without the capabilities of the input device; the size of the mouse before is
  -- an argument.
  unfoldable pub lifebook_init : Machine → Answers → ℕ → D → Started D
  lifebook_init machine answers pktsize d =
      let (d', error) = absolute_mode machine d in
      let (private, error') = create_relative_device answers in
      let started : Option Data → Started D = λ p. record {
        device = d';
        code = 0;
        private = p;
        installed = true;
        model = if machine.use_6byte then 6 else 3;
        pktsize = 3;
      } in
      let failed : D → ℕ → Started D = λ d₁ e. record {
        device = d₁;
        code = e;
        private = none;
        installed = false;
        model = 0;
        pktsize = pktsize;
      } in
      if not (error == 0)
      then failed d' error
      else if machine.limited
      then started none
      else if not (error' == 0)
      then failed (relative_mode d') error'
      else started private
