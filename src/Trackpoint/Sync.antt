-- ===== src/Trackpoint/Sync.antt =====
-- trackpoint.c: `trackpoint_sync` and `trackpoint_defaults`.
use debugging.Common.{Bool, not, List, [], ◌∷◌, ◌==◌, ◌&&◌, ◌||◌, if◌then◌else◌}
use debugging.Kernel.{Ps2}
use debugging.Trackpoint.{
  Attr, Data, Feature, command, mask, power_on_default, feature_command, feature_mask, variant_ibm,
}
use debugging.Trackpoint.Io.{is_attr_available, write, update_bit}

-- The order in which `trackpoint_sync` goes through the attributes.
abbrev pub sync_order : List Attr
sync_order =
    Attr.sensitivity ∷ Attr.inertia ∷ Attr.speed ∷ Attr.reach ∷ Attr.draghys ∷ Attr.mindrag
    ∷ Attr.thresh ∷ Attr.upthresh ∷ Attr.ztime ∷ Attr.jenks ∷ Attr.drift_time ∷ Attr.press_to_select
    ∷ Attr.skipback ∷ Attr.ext_dev ∷ []

-- `trackpoint_defaults`
unfoldable pub defaults : Data → Data
defaults tp = record tp { value = power_on_default }

module _ {D : Type 0} (ps2 : Ps2 D) (tp : Data) where
  -- TRACKPOINT_UPDATE
  unfoldable pub update_attr : Bool → Attr → D → D
  update_attr power_on a d =
      if (not power_on || not (tp.value a == power_on_default a)) && is_attr_available tp a
      then (if mask a == 0
          then (write ps2 (command a) (tp.value a) d).0
          else (update_bit ps2 (command a) (mask a) (tp.value a) d).0)
      else d

  unfoldable pub update_attrs : Bool → List Attr → D → D
  update_attrs power_on [] d = d
  update_attrs power_on (a ∷ attrs) d = update_attrs power_on attrs (update_attr power_on a d)

  unfoldable pub disable_features : List Feature → D → D
  disable_features [] d = d
  disable_features (f ∷ fs) d =
      disable_features fs (update_bit ps2 (feature_command f) (feature_mask f) 0 d).0

  -- `trackpoint_sync`, which always returns 0.
  unfoldable pub sync : Bool → D → D
  sync in_power_on_state d =
      let quiet = disable_features (Feature.twohand ∷ Feature.source_tag ∷ Feature.mb ∷ []) d in
      update_attrs in_power_on_state sync_order
        (if not in_power_on_state && tp.variant_id == variant_ibm then quiet else d)
