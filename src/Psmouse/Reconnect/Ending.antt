-- ===== src/Psmouse/Reconnect/Ending.antt =====
-- How a reconnect with a driver's handler ends.
use debugging.Common.{
  ℕ, ◌≡◌, ◌≢◌, Bool, true, false, some, refl, arith, ap, ◌==◌, Bool-cases, inl, inr, ◌∙◌,
}
use debugging.Kernel.{Ps2}
use debugging.Psmouse.{Psmouse, State}
use debugging.Psmouse.Command.{Scale, activate, cmd_enable, set_resolution}
use debugging.Psmouse.Command.Rate.{set_rate-IsGreatest}
use debugging.Psmouse.Receive.{set_state}
use debugging.Psmouse.Resync.{World, stop_parent}
use debugging.Psmouse.Detect.{Probes}
use debugging.Psmouse.Reconnect.{
  Hooks, default_hooks, lost, initialize, complete, same_device, reconnect_by, on_parent,
}

-- The setters and the handler leave the state of the mouse, its place in the packet and its protocol
-- alone.
pub record IsTame {D P Q : Type 0} (hooks : Hooks D P Q) : Type 0 where
  pub tame_rate :
      (n : ℕ) (d : D) (m : Psmouse P)
      → ((hooks.set_rate n d m).1.state ≡ m.state) × ((hooks.set_rate n d m).1.pktcnt ≡ m.pktcnt)
  pub tame_resolution :
      (n : ℕ) (d : D) (m : Psmouse P)
      → ((hooks.set_resolution n d m).1.state ≡ m.state)
        × ((hooks.set_resolution n d m).1.pktcnt ≡ m.pktcnt)
  pub tame_scale :
      (s : Scale) (d : D) (m : Psmouse P)
      → ((hooks.set_scale s d m).1.state ≡ m.state) × ((hooks.set_scale s d m).1.pktcnt ≡ m.pktcnt)

abbrev pub IsTameHandler : {D P : Type 0} → (D → Psmouse P → D × Psmouse P × ℕ) → Type 0
IsTameHandler {D} {P} f =
    (d : D) (m : Psmouse P)
    → ((f d m).1.state ≡ m.state)
      × ((f d m).1.pktcnt ≡ m.pktcnt)
      × ((f d m).1.protocol ≡ m.protocol)

-- The ends of a reconnect, by the code of the handler and of the command that enables the device after
-- the mouse was set up, if it is sent: at work; found but not enabled; left to its companion; not
-- found.
pub data ReconnectEnding {P : Type 0} (companion : Bool) (handler_code enable_code : ℕ)
    (m : Psmouse P) (code : ℕ) : Type 0 where
  at_work :
      handler_code ≡ 0
      → companion ≡ false
      → enable_code ≡ 0
      → code ≡ 0
      → m.state ≡ State.activated
      → ReconnectEnding companion handler_code enable_code m code
  not_enabled :
      handler_code ≡ 0
      → companion ≡ false
      → enable_code ≢ 0
      → code ≡ 0
      → m.state ≡ State.cmd_mode
      → ReconnectEnding companion handler_code enable_code m code
  left_to_companion :
      handler_code ≡ 0
      → companion ≡ true
      → code ≡ 0
      → m.state ≡ State.initializing
      → ReconnectEnding companion handler_code enable_code m code
  not_found :
      handler_code ≢ 0
      → code ≡ lost
      → m.state ≡ State.initializing
      → ReconnectEnding companion handler_code enable_code m code

module _ {D P Q : Type 0} (ps2 parent_ps2 : Ps2 D) (hooks : Hooks D P Q) (tame : IsTame hooks) where
  initialize-tame :
      (max_proto : ℕ) (d : D) (m : Psmouse P)
      → let m' = (initialize ps2 parent_ps2 hooks max_proto d m).1 in
        (m'.state ≡ m.state) × (m'.pktcnt ≡ m.pktcnt)
  unfolding initialize
  initialize-tame max_proto d m =
      let (d₁, m₁) = hooks.set_rate m.rate d m in
      let (d₂, m₂) = hooks.set_resolution m₁.resolution d₁ m₁ in
      ground (
        arith,
        tame.tame_rate m.rate d m,
        tame.tame_resolution m₁.resolution d₁ m₁,
        tame.tame_scale Scale.scale11 d₂ m₂,
      )

  -- What the activation of a mouse in the command mode makes of its state, by the code of the enable.
  data Working (code : ℕ) (m : Psmouse P) : Type 0 where
    enabled : code ≡ 0 → m.state ≡ State.activated → Working code m
    waiting : code ≢ 0 → m.state ≡ State.cmd_mode → Working code m

  activate-cases :
      (now : ℕ) (d : D) (m : Psmouse P)
      → m.state ≡ State.cmd_mode
      → m.pktcnt ≡ 0
      → let m' = (activate ps2 now d m).1 in
        Working (ps2.command d cmd_enable ps2.uninit).code m' × (m'.pktcnt ≡ 0)
  unfolding activate set_state
  activate-cases now d m s c = elim (Bool-cases ((ps2.command d cmd_enable ps2.uninit).code == 0)) [
    | inl acked ↦ rw acked (Working.enabled (ground arith) refl, refl)
    | inr silent ↦ rw silent (Working.waiting (ground arith) s, c)
  ]

  ending_of_state :
      {companion : Bool} {handler_code enable_code : ℕ} {m : Psmouse P}
      → handler_code ≡ 0
      → companion ≡ false
      → Working enable_code m
      → ReconnectEnding companion handler_code enable_code m 0
  ending_of_state same own (Working.enabled e s) = ReconnectEnding.at_work same own e refl s
  ending_of_state same own (Working.waiting e s) = ReconnectEnding.not_enabled same own e refl s

  module _ (probes : Probes (D × Psmouse P)) (max_proto : ℕ) where
    -- The code of the command that enables the device, which is sent after the setters and the parent's
    -- hook.
    abbrev pub enable_code : ℕ → World D P Q → ℕ
    enable_code now w =
        let (d₁, _) =
          initialize ps2 parent_ps2 hooks max_proto w.device
            (set_state now State.cmd_mode w.mouse) in
        (ps2.command (on_parent hooks.pt_activate d₁ w.parent).0 cmd_enable ps2.uninit).code

    complete-Working :
        (now : ℕ) (w : World D P Q)
        → w.mouse.protocol.smbus_companion ≡ false
        → let m' = (complete ps2 parent_ps2 hooks probes max_proto now w).mouse in
          Working (enable_code now w) m' × (m'.pktcnt ≡ 0)
    unfolding complete
    complete-Working now w own =
        let start = set_state now State.cmd_mode w.mouse in
        let (d₁, m₁) = initialize ps2 parent_ps2 hooks max_proto w.device start in
        let (state, count) = initialize-tame max_proto w.device start in
        simp own (
          activate-cases now (on_parent hooks.pt_activate d₁ w.parent).0 m₁
            (unfold set_state in state) (unfold set_state in count))

    complete-companion :
        (now : ℕ) (w : World D P Q)
        → w.mouse.protocol.smbus_companion ≡ true
        → (complete ps2 parent_ps2 hooks probes max_proto now w).mouse ≡ w.mouse
    unfolding complete
    complete-companion now w away = simp away refl

    -- What a handler leaves: the device, the mouse and the parent, and its code.
    abbrev pub found_world : (D → Psmouse P → D × Psmouse P × ℕ) → ℕ → World D P Q → World D P Q × ℕ
    found_world f now w =
        let (d, parent) = stop_parent parent_ps2 now w.device w.parent in
        let (d', m', code) = f d (set_state now State.initializing w.mouse) in
        (record { device = d'; mouse = m'; parent = parent }, code)

    -- The mouse that a handler leaves, from the state in which it is called.
    abbrev handled_mouse : (D → Psmouse P → D × Psmouse P × ℕ) → ℕ → World D P Q → Psmouse P
    handled_mouse f now w =
        (f (stop_parent parent_ps2 now w.device w.parent).0
          (set_state now State.initializing w.mouse)).1

    module _ (f : D → Psmouse P → D × Psmouse P × ℕ) (tame_handler : IsTameHandler f) where
      handled_mouse-tame :
          (now : ℕ) (w : World D P Q)
          → ((handled_mouse f now w).state ≡ State.initializing)
            × ((handled_mouse f now w).pktcnt ≡ 0)
            × ((handled_mouse f now w).protocol ≡ w.mouse.protocol)
      unfolding set_state
      handled_mouse-tame now w =
          tame_handler (stop_parent parent_ps2 now w.device w.parent).0
            (set_state now State.initializing w.mouse)

      -- A reconnect by a driver's handler ends in one of four ways. Where the code of the handler is 0
      -- it succeeds: with the mouse activated, where the device acknowledges the enabling after the
      -- mouse was set up; still in the command mode where it does not; or with a mouse that its SMBus
      -- companion serves, which stays in the initializing state. Where the code of the handler is not
      -- 0 it fails, and the mouse stays in that state. No bytes of a packet are left in any of them.
      -- (The handler and the setters leave the state, the counter and the protocol alone.)
      pub reconnect_by-Ending :
          (now : ℕ) (w : World D P Q)
          → let r = reconnect_by ps2 parent_ps2 hooks probes max_proto (some f) now w in
            let (found, code) = found_world f now w in
            ReconnectEnding w.mouse.protocol.smbus_companion code
              (enable_code now found)
              r.0.mouse
              r.1
            × (r.0.mouse.pktcnt ≡ 0)
      unfolding reconnect_by same_device
      reconnect_by-Ending now w =
          let d = (stop_parent parent_ps2 now w.device w.parent).0 in
          let r = f d (set_state now State.initializing w.mouse) in
          let (state, count, protocol) = handled_mouse-tame now w in
          let found : World D P Q = record {
            device = r.0;
            mouse = r.1;
            parent = (stop_parent parent_ps2 now w.device w.parent).1;
          } in
          elim (Bool-cases (r.2 == 0)) [
            | inr differs ↦ rw differs (ReconnectEnding.not_found (ground arith) refl state, count)
            | inl same ↦ elim (Bool-cases w.mouse.protocol.smbus_companion) [
              | inr own ↦
                  let (working, none_left) =
                    complete-Working now found (ap (λ p. p.smbus_companion) protocol ∙ own) in
                  rw same (ending_of_state (ground arith) own working, none_left)
              | inl away ↦
                  rw
                    (
                      same,
                      complete-companion now found (ap (λ p. p.smbus_companion) protocol ∙ away),
                    )
                    (ReconnectEnding.left_to_companion (ground arith) away refl state, count)
            ]
          ]

-- The generic functions are tame.
pub default_hooks-IsTame :
    {D P Q : Type 0} (ps2 : Ps2 D) → IsTame (default_hooks {D = D} {P = P} {Q = Q} ps2)
unfolding set_resolution
default_hooks-IsTame ps2 = record {
  tame_rate = λ n d m. let (r, e, _) = set_rate-IsGreatest ps2 n d m in rw e (refl, refl);
  tame_resolution = λ n d m. (refl, refl);
  tame_scale = λ s d m. (refl, refl);
}
