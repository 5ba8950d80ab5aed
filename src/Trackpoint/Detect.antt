-- ===== src/Trackpoint/Detect.antt =====
-- trackpoint.c: `trackpoint_start_protocol`, `trackpoint_reconnect` and `trackpoint_detect`. Whether
-- the kernel has the memory, and the code of `device_add_group`, are arguments.
use debugging.Common.{
  ℕ, ◌%◌, Bool, false, not, Option, none, some, [], ◌∷◌, leb, ◌==◌, ◌&&◌, ◌||◌, if◌then◌else◌,
}
use Prim.Native.String.{String}
use debugging.Kernel.{Ps2, bytes, enodev, enomem}
use debugging.Trackpoint.{Data, tp_read_id, tp_ext_btn, variant_ibm, make_ps2_cmd}
use debugging.Trackpoint.Io.{power_on_reset, read}
use debugging.Trackpoint.Sync.{defaults, sync}

-- What `trackpoint_start_protocol` gives: its code and the two identifiers.
pub record Started (D : Type 0) : Type 0 where
  pub device : D
  pub code : ℕ
  pub variant_id : ℕ
  pub firmware_id : ℕ

-- The six cases of its switch, TP_VARIANT_IBM to TP_VARIANT_SYNAPTICS.
abbrev pub is_variant : ℕ → Bool
is_variant v = v == 0x01 || (v == 0x02 || (v == 0x03 || (v == 0x04 || (v == 0x05 || v == 0x06))))

-- The table trackpoint_variants; `none` is an entry that it does not have.
pub variant_name : ℕ → Option String
variant_name v =
    if v == 0x01
    then some "IBM"
    else if v == 0x02
    then some "ALPS"
    else if v == 0x03
    then some "Elan"
    else if v == 0x04
    then some "NXP"
    else if v == 0x05
    then some "JYT_Synaptics"
    else if v == 0x06
    then some "Synaptics"
    else none

-- What `trackpoint_detect` leaves: its code (1 is the -1 of the source), the private data, the
-- vendor, and whether the middle button is announced. `none` stands for NULL, which the private data
-- is before.
pub record Detection (D : Type 0) : Type 0 where
  pub device : D
  pub code : ℕ
  pub private : Option Data
  pub vendor : Option String
  pub middle : Bool

-- The data of kzalloc, all zero.
abbrev zeroed : Data
zeroed = record { variant_id = 0; firmware_id = 0; value = λ a. 0 }

module _ {D : Type 0} (ps2 : Ps2 D) where
  unfoldable pub start_protocol : D → Started D
  start_protocol d =
      let r = ps2.command d (make_ps2_cmd 0 2 tp_read_id) (bytes (0 ∷ 0 ∷ [])) in
      let ids : ℕ → Started D = λ code. record {
        device = r.device;
        code = code;
        variant_id = r.param 0;
        firmware_id = r.param 1;
      } in
      if not (r.code == 0) then ids r.code else if is_variant (r.param 0) then ids 0 else ids enodev

  -- `trackpoint_reconnect`
  unfoldable pub reconnect : Data → D → D × ℕ
  reconnect tp d =
      let started = start_protocol d in
      let (after_reset, code) = power_on_reset ps2 started.device in
      let ibm = tp.variant_id == variant_ibm in
      let was_reset = ibm && code == 0 in
      let at_sync = if ibm then after_reset else started.device in
      if started.code == 0
      then (sync ps2 tp was_reset at_sync, 0)
      else (started.device, started.code)

  -- The byte of the buttons, for IBM read from the device; 0x33 where that fails or gives 0.
  pub button_info : ℕ → D → D × ℕ
  button_info variant d =
      let r = read ps2 tp_ext_btn d in
      if not (variant == variant_ibm)
      then (d, 0x33)
      else if not (r.code == 0) || r.param 0 == 0
      then (r.device, 0x33)
      else (r.device, r.param 0)

  -- The part of `trackpoint_detect` that leaves the device with the defaults.
  unfoldable pub settle_defaults : Data → D → D
  settle_defaults tp d =
      let (after_reset, code) = power_on_reset ps2 d in
      if not (tp.variant_id == variant_ibm)
      then sync ps2 tp false d
      else if not (code == 0)
      then sync ps2 tp false after_reset
      else after_reset

  -- `trackpoint_detect`
  unfoldable pub detect : Bool → Bool → ℕ → D → Detection D
  detect set_properties allocated group_code d =
      let s = start_protocol d in
      let tp = record (defaults zeroed) {
        variant_id = s.variant_id;
        firmware_id = s.firmware_id;
      } in
      let (d₁, info) = button_info s.variant_id s.device in
      let d₂ = settle_defaults tp d₁ in
      let failed : ℕ → Detection D = λ code. record {
        device = s.device;
        code = code;
        private = none;
        vendor = none;
        middle = false;
      } in
      if not (s.code == 0)
      then failed s.code
      else if not set_properties
      then failed 0
      else if not allocated
      then failed enomem
      else record {
        device = d₂;
        code = if group_code == 0 then 0 else 1;
        private = if group_code == 0 then some tp else none;
        vendor = variant_name s.variant_id;
        middle = leb 3 (info % 16);
      }
