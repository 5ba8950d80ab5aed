-- ===== src/Trackpoint/Reconnect.antt =====
-- `trackpoint_reconnect` and `trackpoint_detect` on a documented device.
use debugging.Common.{
  ℕ, ◌≡◌, sym, Bool, true, false, some, [], ◌∷◌, ◌==◌, ◌&&◌, if◌then◌else◌, arith, Bool-cases, ◌⊎◌,
  inl, inr,
}
use mathlib.Core.Path.{subst}
use debugging.Kernel.{Ps2, Reply, bytes}
use debugging.Trackpoint.{
  Attr, Data, power_on_default, variant_ibm, tp_command, tp_por, make_ps2_cmd,
}
use debugging.Trackpoint.Io.{is_attr_available, power_on_reset}
use debugging.Trackpoint.Sync.{sync, defaults}
use debugging.Trackpoint.Detect.{start_protocol, reconnect, detect, settle_defaults, button_info}
use debugging.Trackpoint.Device.{Ram, Holds, IsTrackpoint}
use debugging.Trackpoint.Settings.{sync-Holds}

module _ {D : Type 0} (ps2 : Ps2 D) (ram : Ram D) (device : IsTrackpoint ps2 ram) where
  abbrev reset_reply : D → Reply D
  reset_reply d = ps2.command d (make_ps2_cmd 1 2 tp_command) (bytes (tp_por ∷ 0 ∷ []))

  power_on_reset-device : (d : D) → (power_on_reset ps2 d).0 ≡ (reset_reply d).device
  unfolding power_on_reset
  power_on_reset-device d = ground arith

  power_on_reset-reply :
      (d : D)
      → (power_on_reset ps2 d).1 ≡ 0
      → ((reset_reply d).code ≡ 0)
        × ((reset_reply d).param 0 ≡ 0xaa)
        × ((reset_reply d).param 1 ≡ 0x00)
  unfolding power_on_reset
  power_on_reset-reply d e = ground arith

  -- A reset that the driver takes for successful has set the defaults.
  power_on_reset-Holds :
      (d : D) (a : Attr)
      → (power_on_reset ps2 d).1 ≡ 0
      → Holds ram (power_on_reset ps2 d).0 a (power_on_default a)
  power_on_reset-Holds d a e =
      let (code, first, second) = power_on_reset-reply d e in
      subst (λ d'. Holds ram d' a (power_on_default a)) (sym (power_on_reset-device d))
        (device.resets d code first second a)

  -- Whether a reconnect resets the device, and the device that it then syncs.
  abbrev was_reset : Data → D → Bool
  was_reset tp d =
      tp.variant_id == variant_ibm && (power_on_reset ps2 (start_protocol ps2 d).device).1 == 0

  abbrev at_sync : Data → D → D
  at_sync tp d =
      if tp.variant_id == variant_ibm
      then (power_on_reset ps2 (start_protocol ps2 d).device).0
      else (start_protocol ps2 d).device

  reconnect-sync :
      (tp : Data) (d : D)
      → (reconnect ps2 tp d).1 ≡ 0
      → (reconnect ps2 tp d).0 ≡ sync ps2 tp (was_reset tp d) (at_sync tp d)
  unfolding reconnect
  reconnect-sync tp d e = ground arith

  at_sync-reset :
      (tp : Data) (d : D) (b : Attr)
      → was_reset tp d ≡ true
      → Holds ram (at_sync tp d) b (power_on_default b)
  at_sync-reset tp d b on =
      let same : at_sync tp d ≡ (power_on_reset ps2 (start_protocol ps2 d).device).0 =
        ground arith in
      subst (λ d'. Holds ram d' b (power_on_default b)) (sym same)
        (power_on_reset-Holds (start_protocol ps2 d).device b (ground arith))

  -- A reconnect that succeeds, with or without a power-on reset, leaves each available attribute
  -- in the device as it stands in the driver's data, though the updates of those with the power-on
  -- value are skipped after a reset.
  pub reconnect-Holds :
      (tp : Data) (d : D) (a : Attr)
      → (reconnect ps2 tp d).1 ≡ 0
      → is_attr_available tp a ≡ true
      → Holds ram (reconnect ps2 tp d).0 a (tp.value a)
  reconnect-Holds tp d a e available =
      subst (λ d'. Holds ram d' a (tp.value a)) (sym (reconnect-sync tp d e))
        (sync-Holds ps2 ram device tp (was_reset tp d) (at_sync tp d) a available
          (λ on b. at_sync-reset tp d b on))

  -- The device after detection, by the three ways that the source goes.
  settle_defaults-cases :
      (tp : Data) (d : D)
      → ((d' : D) × (settle_defaults ps2 tp d ≡ sync ps2 tp false d'))
        ⊎ ((settle_defaults ps2 tp d ≡ (power_on_reset ps2 d).0) × ((power_on_reset ps2 d).1 ≡ 0))
  unfolding settle_defaults
  settle_defaults-cases tp d = elim (Bool-cases (tp.variant_id == variant_ibm)) [
    | inl ibm ↦ elim (Bool-cases ((power_on_reset ps2 d).1 == 0)) [
      | inl reset ↦ inr (ground arith, ground arith)
      | inr failed ↦ inl ((power_on_reset ps2 d).0, ground arith)
    ]
    | inr other ↦ inl (d, ground arith)
  ]

  settle_defaults-Holds :
      (tp : Data) (d : D) (a : Attr)
      → tp.value a ≡ power_on_default a
      → is_attr_available tp a ≡ true
      → Holds ram (settle_defaults ps2 tp d) a (tp.value a)
  settle_defaults-Holds tp d a default available = elim (settle_defaults-cases tp d) [
    | inl (d', synced) ↦
        subst (λ u. Holds ram u a (tp.value a)) (sym synced)
          (sync-Holds ps2 ram device tp false d' a available (λ on. cc))
    | inr (reset, good) ↦
        subst (λ u. Holds ram u a (tp.value a)) (sym reset)
          (subst (λ v. Holds ram (power_on_reset ps2 d).0 a v) (sym default)
            (power_on_reset-Holds d a good))
  ]

  abbrev probed : D → D
  probed d = (button_info ps2 (start_protocol ps2 d).variant_id (start_protocol ps2 d).device).0

  detect-kept :
      (d : D) (group_code : ℕ) {tp : Data}
      → (detect ps2 true true group_code d).private ≡ some tp
      → ((detect ps2 true true group_code d).device ≡ settle_defaults ps2 tp (probed d))
        × ((a : Attr) → tp.value a ≡ power_on_default a)
  unfolding detect defaults
  detect-kept d group_code e = (ground arith, λ a. ground arith)

  -- The detection of a TrackPoint, if it succeeds and keeps the data, leaves each available
  -- attribute in the device as it stands in that data, and these are the power-on values.
  pub detect-Holds :
      (d : D) (group_code : ℕ) {tp : Data} (a : Attr)
      → (detect ps2 true true group_code d).private ≡ some tp
      → is_attr_available tp a ≡ true
      → Holds ram (detect ps2 true true group_code d).device a (tp.value a)
        × (tp.value a ≡ power_on_default a)
  detect-Holds d group_code {tp} a e available =
      let (left, default) = detect-kept d group_code e in
      (
        subst (λ u. Holds ram u a (tp.value a)) (sym left)
            (settle_defaults-Holds tp (probed d) a (default a) available),
        default a,
      )
