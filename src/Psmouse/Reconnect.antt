-- ===== src/Psmouse/Reconnect.antt =====
-- psmouse-base.c: `psmouse_initialize`, `psmouse_cleanup` and `__psmouse_reconnect`, which bring a
-- mouse that was lost back into work. The function pointers of a mouse and of its parent are a
-- record; the search for the protocol works on the device and the mouse together.
pub mod Ending
pub mod Parents
use debugging.Common.{ℕ, Bool, true, false, not, Option, none, some, ◌==◌, ◌&&◌, if◌then◌else◌}
use debugging.Kernel.{Ps2, Reply}
use debugging.Psmouse.{Psmouse, PsmouseType, State, rank}
use debugging.Psmouse.Receive.{set_state}
use debugging.Psmouse.Command.{
  Scale, cmd_disable, cmd_enable, cmd_reset_dis, reset, probe, activate, set_rate, set_resolution,
  set_scale,
}
use debugging.Psmouse.Resync.{World, stop_parent, start_parent}
use debugging.Psmouse.Detect.{Probes, extensions}

-- The function pointers; `none` is NULL. A handler gives a code, 0 for success.
pub record Hooks (D P Q : Type 0) : Type 0 where
  pub set_rate : ℕ → D → Psmouse P → D × Psmouse P
  pub set_resolution : ℕ → D → Psmouse P → D × Psmouse P
  pub set_scale : Scale → D → Psmouse P → D × Psmouse P
  pub reconnect : Option (D → Psmouse P → D × Psmouse P × ℕ)
  pub fast_reconnect : Option (D → Psmouse P → D × Psmouse P × ℕ)
  pub cleanup : Option (D → Psmouse P → D × Psmouse P)
  pub disconnect : Option (D → Psmouse P → D × Psmouse P)
  pub pt_activate : Option (D → Psmouse Q → D × Psmouse Q)
  pub pt_deactivate : Option (D → Psmouse Q → D × Psmouse Q)

-- ENOENT, and the -1 with which a reconnect fails.
abbrev pub enoent : ℕ
enoent = 2

abbrev pub lost : ℕ
lost = 1

-- `if (parent && parent->hook) parent->hook(parent);`
abbrev pub on_parent :
    {D Q : Type 0}
    → Option (D → Psmouse Q → D × Psmouse Q)
    → D
    → Option (Psmouse Q)
    → D × Option (Psmouse Q)
on_parent none d parent = (d, parent)
on_parent (some f) d none = (d, none)
on_parent (some f) d (some q) = let (d', q') = f d q in (d', some q')

-- The hook of a mouse, if there is one.
abbrev pub on_mouse :
    {D P : Type 0} → Option (D → Psmouse P → D × Psmouse P) → D → Psmouse P → D × Psmouse P
on_mouse none d m = (d, m)
on_mouse (some f) d m = f d m

module _ {D P Q : Type 0} (ps2 parent_ps2 : Ps2 D) (hooks : Hooks D P Q) where
  -- `psmouse_initialize`; `max_proto` is the variable `psmouse_max_proto`.
  unfoldable pub initialize : ℕ → D → Psmouse P → D × Psmouse P
  initialize max_proto d m =
      let (d₁, m₁) = hooks.set_rate m.rate d m in
      let (d₂, m₂) = hooks.set_resolution m₁.resolution d₁ m₁ in
      if max_proto == rank PsmouseType.ps2 then (d, m) else hooks.set_scale Scale.scale11 d₂ m₂

  -- `psmouse_cleanup`
  unfoldable pub cleanup : ℕ → World D P Q → World D P Q
  cleanup now w =
      let (d₁, stopped) = stop_parent parent_ps2 now w.device w.parent in
      let m₁ = set_state now State.initializing w.mouse in
      let (d₂, m₂) = on_mouse hooks.cleanup (ps2.command d₁ cmd_disable ps2.uninit).device m₁ in
      let d₃ = (ps2.command d₂ cmd_reset_dis ps2.uninit).device in
      let d₄ = (ps2.command d₃ cmd_enable ps2.uninit).device in
      let (d₅, passed) = on_parent hooks.pt_deactivate d₄ stopped in
      let (d₆, started) = start_parent parent_ps2 now d₅ passed in
      record { device = d₆; mouse = m₂; parent = started }

  module _ (probes : Probes (D × Psmouse P)) (max_proto : ℕ) where
    -- Whether the device is still what it was, by the handler or by a new search.
    unfoldable pub same_device :
        Option (D → Psmouse P → D × Psmouse P × ℕ) → D → Psmouse P → D × Psmouse P × Bool
    same_device (some handler) d m = let (d', m', code) = handler d m in (d', m', code == 0)
    same_device none d m =
        let (d₁, code) = probe ps2 (reset ps2 d).0 in
        let (type, (d₂, m₂)) = extensions probes false max_proto (d₁, m) in
        if code == 0 then (d₂, m₂, rank m₂.protocol.type == rank type) else (d₁, m, false)

    -- The completion of a reconnect, up to the parent's activation.
    unfoldable pub complete : ℕ → World D P Q → World D P Q
    complete now w =
        let (d₁, m₁) = initialize max_proto w.device (set_state now State.cmd_mode w.mouse) in
        let (d₂, parent) = on_parent hooks.pt_activate d₁ w.parent in
        let (d₃, m₃, _) = activate ps2 now d₂ m₁ in
        let (d₄, parent') = on_parent hooks.pt_activate w.device w.parent in
        if w.mouse.protocol.smbus_companion
        then record { device = d₄; mouse = w.mouse; parent = parent' }
        else record { device = d₃; mouse = m₃; parent = parent }

    -- The part of `__psmouse_reconnect` behind the choice of the handler.
    unfoldable pub reconnect_by :
        Option (D → Psmouse P → D × Psmouse P × ℕ) → ℕ → World D P Q → World D P Q × ℕ
    reconnect_by handler now w =
        let (d₁, stopped) = stop_parent parent_ps2 now w.device w.parent in
        let (d₂, m₂, same) = same_device handler d₁ (set_state now State.initializing w.mouse) in
        let found : World D P Q = record { device = d₂; mouse = m₂; parent = stopped } in
        let left = if same then complete now found else found in
        let (d₃, started) = start_parent parent_ps2 now left.device left.parent in
        (record left { device = d₃; parent = started }, if same then 0 else lost)

    -- `__psmouse_reconnect`
    unfoldable pub reconnect : Bool → ℕ → World D P Q → World D P Q × ℕ
    reconnect true now w = elim hooks.fast_reconnect [
      | none ↦ (w, enoent)
      | some handler ↦ reconnect_by (some handler) now w
    ]
    reconnect false now w = reconnect_by hooks.reconnect now w

-- A result, or what was before.
abbrev pub or_stay : {A : Type 0} → A → Option A → A
or_stay a none = a
or_stay a (some b) = b

-- The hooks that `psmouse_apply_defaults` sets: the generic functions, and no others. (The table of
-- rates ends with 0, so that `none` does not occur.)
abbrev pub default_hooks : {D P Q : Type 0} → Ps2 D → Hooks D P Q
default_hooks ps2 = record {
  set_rate = λ rate d m. or_stay (d, m) (set_rate ps2 rate d m);
  set_resolution = λ resolution d m. set_resolution ps2 resolution d m;
  set_scale = λ scale d m. (set_scale ps2 scale d, m);
  reconnect = none;
  fast_reconnect = none;
  cleanup = none;
  disconnect = none;
  pt_activate = none;
  pt_deactivate = none;
}
