-- ===== src/Trackpoint.antt =====
-- trackpoint-lost/trackpoint.h and the tables of trackpoint.c: the attributes of a TrackPoint, their
-- locations, masks and power-on values, and the data of the driver. The children hold the
-- operations, and the theorems about a device that keeps to the TrackPoint's documentation.
mod Examples
pub mod Io
pub mod Sync
pub mod Device
pub mod Settings
pub mod Detect
pub mod Reconnect
pub mod Attributes
pub mod Revival
use debugging.Common.{
  ℕ, ◌*◌, ◌^◌, ◌+◌, ◌==◌, if◌then◌else◌, Bool, true, false, List, [], ◌∷◌, bit_or,
}

-- The attributes, in the order of struct trackpoint_data.
pub data Attr : Type 0 where
  sensitivity speed inertia reach draghys mindrag thresh upthresh ztime jenks drift_time : Attr
  press_to_select skipback ext_dev : Attr

-- struct trackpoint_data: the source addresses the fields of the attributes by their offset, here
-- they are a function. A field of type bool holds 0 or 1.
pub record Data : Type 0 where
  pub variant_id : ℕ
  pub firmware_id : ℕ
  pub value : Attr → ℕ

-- offsetof(struct trackpoint_data, …)
abbrev pub field_offset : Attr → ℕ
field_offset Attr.sensitivity = 2
field_offset Attr.speed = 3
field_offset Attr.inertia = 4
field_offset Attr.reach = 5
field_offset Attr.draghys = 6
field_offset Attr.mindrag = 7
field_offset Attr.thresh = 8
field_offset Attr.upthresh = 9
field_offset Attr.ztime = 10
field_offset Attr.jenks = 11
field_offset Attr.drift_time = 12
field_offset Attr.press_to_select = 13
field_offset Attr.skipback = 14
field_offset Attr.ext_dev = 15

-- TP_COMMAND, TP_READ_ID, TP_POR, TP_WRITE_MEM, TP_TOGGLE and TP_EXT_BTN
abbrev pub tp_command : ℕ
tp_command = 0xe2

abbrev pub tp_read_id : ℕ
tp_read_id = 0xe1

abbrev pub tp_por : ℕ
tp_por = 0x7f

abbrev pub tp_write_mem : ℕ
tp_write_mem = 0x81

abbrev pub tp_toggle : ℕ
tp_toggle = 0x47

abbrev pub tp_ext_btn : ℕ
tp_ext_btn = 0x4b

-- The variants; TP_VARIANT_IBM is the first.
abbrev pub variant_ibm : ℕ
variant_ibm = 0x01

-- MAKE_PS2_CMD
abbrev pub make_ps2_cmd : ℕ → ℕ → ℕ → ℕ
make_ps2_cmd params results cmd = bit_or (bit_or (params * 2 ^ 12) (results * 2 ^ 8)) cmd

-- The field `command`: the location in the RAM of the TrackPoint.
abbrev pub command : Attr → ℕ
command Attr.sensitivity = 0x4a
command Attr.speed = 0x60
command Attr.inertia = 0x4d
command Attr.reach = 0x57
command Attr.draghys = 0x58
command Attr.mindrag = 0x59
command Attr.thresh = 0x5c
command Attr.upthresh = 0x5a
command Attr.ztime = 0x5e
command Attr.jenks = 0x5d
command Attr.drift_time = 0x5f
command Attr.press_to_select = 0x2c
command Attr.skipback = 0x2d
command Attr.ext_dev = 0x23

-- The field `mask`; 0 for an integer.
abbrev pub mask : Attr → ℕ
mask Attr.press_to_select = 0x01
mask Attr.skipback = 0x08
mask Attr.ext_dev = 0x02
mask _ = 0

abbrev pub inverted : Attr → Bool
inverted Attr.ext_dev = true
inverted _ = false

abbrev pub power_on_default : Attr → ℕ
power_on_default Attr.sensitivity = 0x80
power_on_default Attr.speed = 0x61
power_on_default Attr.inertia = 0x06
power_on_default Attr.reach = 0x0a
power_on_default Attr.draghys = 0xff
power_on_default Attr.mindrag = 0x14
power_on_default Attr.thresh = 0x08
power_on_default Attr.upthresh = 0xff
power_on_default Attr.ztime = 0x26
power_on_default Attr.jenks = 0x87
power_on_default Attr.drift_time = 0x05
power_on_default Attr.press_to_select = 0x00
power_on_default Attr.skipback = 0x00
power_on_default Attr.ext_dev = 0x00

-- The three features that may make the device unusable with this driver, by location and mask:
-- TWOHAND, SOURCE_TAG and MB, with the value 0 each.
pub data Feature : Type 0 where
  twohand source_tag mb : Feature

abbrev pub feature_command : Feature → ℕ
feature_command Feature.twohand = 0x2d
feature_command Feature.source_tag = 0x20
feature_command Feature.mb = 0x23

abbrev pub feature_mask : Feature → ℕ
feature_mask Feature.twohand = 0x01
feature_mask Feature.source_tag = 0x80
feature_mask Feature.mb = 0x01

-- `trackpoint_is_attr_available`
abbrev pub is_sensitivity : Attr → Bool
is_sensitivity Attr.sensitivity = true
is_sensitivity _ = false

abbrev pub is_press_to_select : Attr → Bool
is_press_to_select Attr.press_to_select = true
is_press_to_select _ = false
