-- ===== src/Trackpoint/Revival.antt =====
-- A TrackPoint through `psmouse_reconnect`: the core's part and the driver's together.
use debugging.Common.{
  ℕ, ◌^◌, ◌*◌, ◌≡◌, ◌⊎◌, inl, inr, true, false, not, none, some, refl, ◌==◌, if◌then◌else◌,
  Bool-cases, ◌∙◌, ap, sym, bit_and, [], ◌∷◌,
}
use mathlib.Core.Path.{subst}
use debugging.Kernel.{Ps2, Bytes, bytes}
use debugging.Psmouse.{Psmouse, PsmouseType, State, rank}
use debugging.Psmouse.Command.{
  Scale, activate, set_resolution, set_scale, cmd_setrate, cmd_setres, cmd_setscale11, cmd_enable,
  resolution_param,
}
use debugging.Psmouse.Command.Rate.{set_rate-IsGreatest}
use debugging.Psmouse.Receive.{set_state}
use debugging.Psmouse.Receive.Packet.{IsStreaming}
use debugging.Psmouse.Process.Laws.{IsPlain}
use debugging.Psmouse.Resync.{stop_parent, start_parent}
use debugging.Psmouse.Detect.{Probes}
use debugging.Psmouse.Reconnect.{
  Hooks, default_hooks, or_stay, initialize, complete, same_device, reconnect_by, reconnect,
}
use debugging.Trackpoint.{Attr, Data, command, mask}
use debugging.Trackpoint.Io.{is_attr_available}
use debugging.Trackpoint.Device.{Ram, Holds, IsTrackpoint}
use debugging.Trackpoint.Detect
use debugging.Trackpoint.Reconnect.{reconnect-Holds}

-- The hooks of a TrackPoint: the generic ones, and `trackpoint_reconnect`.
abbrev pub trackpoint_hooks : {D Q : Type 0} → Ps2 D → Hooks D Data Q
trackpoint_hooks ps2 = record (default_hooks ps2) {
  reconnect = some (λ d m. let (d', code) = Detect.reconnect ps2 m.private d in (d', m, code));
}

-- The commands that the core sends behind the driver's back.
abbrev pub IsCoreCommand : ℕ → Type 0
IsCoreCommand cmd =
    (cmd ≡ cmd_setrate) ⊎ (cmd ≡ cmd_setres) ⊎ (cmd ≡ cmd_setscale11) ⊎ (cmd ≡ cmd_enable)

-- These leave the RAM of the TrackPoint alone, and the enabling is acknowledged.
pub record IsSeparate {D : Type 0} (ps2 : Ps2 D) (ram : Ram D) : Type 0 where
  pub keeps_ram :
      (d : D) (cmd : ℕ) (param : Bytes)
      → IsCoreCommand cmd
      → (l : ℕ) → ram (ps2.command d cmd param).device l ≡ ram d l
  pub enables : (d : D) → (ps2.command d cmd_enable ps2.uninit).code ≡ 0

Holds-same :
    {D : Type 0} (ram : Ram D) (d d' : D) (a : Attr) (v : ℕ)
    → ((l : ℕ) → ram d' l ≡ ram d l)
    → Holds ram d a v
    → Holds ram d' a v
Holds-same ram d d' a v same h =
    subst (λ x. if mask a == 0 then x ≡ v else (bit_and x (mask a) == mask a) ≡ not (v == 0))
      (sym (same (command a))) h

module _ {D : Type 0} (Q : Type 0) (ps2 parent_ps2 : Ps2 D) (ram : Ram D)
    (separate : IsSeparate ps2 ram) where
  abbrev hooks : Hooks D Data Q
  hooks = trackpoint_hooks ps2

  -- The setting-up leaves the RAM alone, and changes the rate and the resolution of the mouse only.
  initialize-default :
      (max_proto : ℕ) (d : D) (m : Psmouse Data)
      → (d' : D) × (rate : ℕ) × (resolution : ℕ) × (initialize ps2 parent_ps2 hooks max_proto d m
          ≡ (d', record m { rate = rate; resolution = resolution }))
        × ((l : ℕ) → ram d' l ≡ ram d l)
  unfolding initialize set_resolution set_scale
  initialize-default max_proto d m = elim (Bool-cases (max_proto == rank PsmouseType.ps2)) [
    | inl bare ↦ (d, m.rate, m.resolution, rw bare refl, λ l. refl)
    | inr more ↦
        let (r, e, _) = set_rate-IsGreatest ps2 m.rate d m in
        let d₁ = (ps2.command d cmd_setrate (bytes (r ∷ []))).device in
        let p = resolution_param m.resolution in
        let d₂ = (ps2.command d₁ cmd_setres (bytes (p ∷ []))).device in
        let chain : D × Psmouse Data → D × Psmouse Data = λ u.
          let (d₃, m₃) = hooks.set_resolution u.1.resolution u.0 u.1 in
          hooks.set_scale Scale.scale11 d₃ m₃ in
        (
          (ps2.command d₂ cmd_setscale11 ps2.uninit).device,
          r,
          25 * 2 ^ p,
          rw more refl ∙ ap (λ o. chain (or_stay (d, m) o)) e,
          λ l.
              separate.keeps_ram d₂ cmd_setscale11 ps2.uninit (inr (inr (inl refl))) l
              ∙ separate.keeps_ram d₁ cmd_setres (bytes (p ∷ [])) (inr (inl refl)) l
              ∙ separate.keeps_ram d cmd_setrate (bytes (r ∷ [])) (inl refl) l,
        )
  ]

  -- Completing the reconnect of a mouse without a parent.
  complete-Trackpoint :
      (probes : Probes (D × Psmouse Data)) (max_proto now extra : ℕ) (d : D) (m : Psmouse Data)
      → m.protocol.smbus_companion ≡ false
      → m.pktsize ≡ 3
      → m.resync_time ≡ 0
      → IsPlain m.protocol.type
      → m.extra_buttons ≡ extra
      → let w' =
          complete ps2 parent_ps2 hooks probes max_proto now
            (record { device = d; mouse = m; parent = none }) in
        IsStreaming extra w'.mouse × (w'.parent ≡ none) × ((l : ℕ) → ram w'.device l ≡ ram d l)
  unfolding complete activate set_state
  complete-Trackpoint probes max_proto now extra d m own size idle plain pressed =
      let (d₁, rate, resolution, set, same) =
        initialize-default max_proto d (set_state now State.cmd_mode m) in
      simp (own, set, separate.enables d₁)
        (
          record {
            active = refl;
            between = refl;
            size = size;
            no_idle_limit = idle;
            plain = plain;
            pressed = pressed;
          },
          refl,
          λ l. separate.keeps_ram d₁ cmd_enable ps2.uninit (inr (inr (inr refl))) l ∙ same l,
        )

  module _ (device : IsTrackpoint ps2 ram) where
    -- The reconnect of a TrackPoint on a port of its own, whose identification succeeds, succeeds,
    -- leaves the mouse activated and ready for a stream of packets, and leaves each available
    -- attribute in the device as it stood in the driver's data, the core's own commands after the
    -- driver's included. (Those leave the RAM of the TrackPoint alone, and the device acknowledges
    -- the enabling.)
    pub reconnect-Trackpoint :
        (probes : Probes (D × Psmouse Data)) (max_proto now extra : ℕ) (d : D) (m : Psmouse Data)
        (a : Attr)
        → m.protocol.smbus_companion ≡ false
        → m.pktsize ≡ 3
        → m.resync_time ≡ 0
        → IsPlain m.protocol.type
        → m.extra_buttons ≡ extra
        → (Detect.reconnect ps2 m.private d).1 ≡ 0
        → is_attr_available m.private a ≡ true
        → let r =
            reconnect ps2 parent_ps2 hooks probes max_proto false now
              (record { device = d; mouse = m; parent = none }) in
          (r.1 ≡ 0) × IsStreaming extra r.0.mouse × Holds ram r.0.device a (m.private.value a)
    unfolding reconnect reconnect_by same_device stop_parent start_parent set_state
    reconnect-Trackpoint probes max_proto now extra d m a own size idle plain pressed ok available =
        let d₁ = (Detect.reconnect ps2 m.private d).0 in
        let fresh = set_state now State.initializing m in
        let (streaming, alone, same) =
          complete-Trackpoint probes max_proto now extra d₁ fresh own size idle plain pressed in
        let held = reconnect-Holds ps2 ram device m.private d a ok available in
        simp (ok, alone) (refl, streaming, Holds-same ram d₁ _ a (m.private.value a) same held)
