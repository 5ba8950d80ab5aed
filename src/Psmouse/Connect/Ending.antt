-- ===== src/Psmouse/Connect/Ending.antt =====
-- How connecting and disconnecting a port end.
use debugging.Common.{
  ℕ, ◌≡◌, ◌≢◌, inl, inr, true, false, Option, none, some, refl, arith, ◌==◌, Bool-cases,
}
use debugging.Kernel.{Ps2}
use debugging.Psmouse.{Psmouse, PsmouseType, Protocol, State}
use debugging.Psmouse.Command.{deactivate, probe, cmd_enable}
use debugging.Psmouse.Resync.{Poll, stop_parent}
use debugging.Psmouse.Detect.{Probes}
use debugging.Psmouse.Reconnect.{Hooks}
use debugging.Psmouse.Reconnect.Parents.{IsThere, on_parent-IsThere, start_parent-activated}
use debugging.Psmouse.Connect.{Answers, Defaults, Port, establish, attach, connect}

-- A port with a mouse is open; one without is closed, and has no input device.
pub data PortEnding {D P Q : Type 0} (port : Port D P Q) (code : ℕ) : Type 0 where
  attached :
      code ≡ 0 → (m : Psmouse P) → port.mouse ≡ some m → port.is_open ≡ true → PortEnding port code
  detached :
      code ≢ 0
      → port.mouse ≡ none
      → port.is_open ≡ false
      → port.is_registered ≡ false
      → PortEnding port code

-- The end does not depend on the device and the parent.
moved :
    {D P Q : Type 0} (port : Port D P Q) (code : ℕ) (d : D) (parent : Option (Psmouse Q))
    → PortEnding port code
    → PortEnding (record port { device = d; parent = parent }) code
moved port code d parent (PortEnding.attached e m has opened) = PortEnding.attached e m has opened
moved port code d parent (PortEnding.detached e gone shut bare) =
    PortEnding.detached e gone shut bare

module _ {D P Q : Type 0} (ps2 parent_ps2 : Ps2 D) (hooks : PsmouseType → Hooks D P Q)
    (pt_activate pt_deactivate : Option (D → Psmouse Q → D × Psmouse Q)) (poll_mouse : Poll D P)
    (probes : Probes (D × Psmouse P)) (by_type : PsmouseType → Protocol) (max_proto : ℕ) where
  establish-PortEnding :
      (answers : Answers) (now : ℕ) (d : D) (m : Psmouse P) (parent : Option (Psmouse Q))
      → let r =
          establish ps2 parent_ps2 hooks pt_activate pt_deactivate poll_mouse probes by_type
            max_proto answers now d m parent in
        PortEnding r.0 r.1 × (IsThere parent → IsThere r.0.parent)
  unfolding establish
  establish-PortEnding answers now d m parent = elim (Bool-cases m.protocol.smbus_companion) [
    | inl companion ↦
        simp companion
          (PortEnding.attached refl _ refl refl, on_parent-IsThere pt_activate d parent)
    | inr own ↦ elim (Bool-cases (answers.register_code == 0)) [
      | inl registered ↦
          simp (own, registered)
            (PortEnding.attached refl _ refl refl, on_parent-IsThere pt_activate _ parent)
      | inr refused ↦
          simp (own, refused) (PortEnding.detached (ground arith) refl refl refl, λ there. there)
    ]
  ]

  attach-PortEnding :
      (answers : Answers) (defaults : Defaults) (now : ℕ) (d : D) (blank : Psmouse P)
      (parent : Option (Psmouse Q))
      → let r =
          attach ps2 parent_ps2 hooks pt_activate pt_deactivate poll_mouse probes by_type max_proto
            answers defaults now d blank parent in
        PortEnding r.0 r.1 × (IsThere parent → IsThere r.0.parent)
  unfolding attach
  attach-PortEnding answers defaults now d blank parent = elim (Bool-cases answers.allocated) [
    | inr poor ↦ simp poor (PortEnding.detached (omega arith) refl refl refl, λ there. there)
    | inl rich ↦ elim (Bool-cases (answers.open_code == 0)) [
      | inr shut ↦
          simp (rich, shut) (PortEnding.detached (ground arith) refl refl refl, λ there. there)
      | inl opened ↦ elim (Bool-cases ((probe ps2 d).1 == 0)) [
        | inr stranger ↦
            simp (rich, opened, stranger)
              (PortEnding.detached (omega arith) refl refl refl, λ there. there)
        | inl known ↦ simp (rich, opened, known) (establish-PortEnding answers now _ _ parent)
      ]
    ]
  ]

  -- A parent whose device acknowledges the enabling.
  module _ (acks : (d : D) → (parent_ps2.command d cmd_enable parent_ps2.uninit).code ≡ 0) where
    -- Connecting a port behind a parent has one of two ends, whatever the devices and the kernel
    -- answer: the code 0 with a mouse on an open port, or another code, with no mouse, the port closed
    -- and no input device. In both the parent, which was deactivated, is activated again (its device
    -- acknowledges the enabling).
    pub connect-PortEnding :
        (answers : Answers) (defaults : Defaults) (now : ℕ) (d : D) (blank : Psmouse P)
        (q : Psmouse Q)
        → let r =
            connect ps2 parent_ps2 hooks pt_activate pt_deactivate poll_mouse probes by_type
              max_proto answers defaults now d blank
              (some q) in
          PortEnding r.0 r.1
          × ((q' : Psmouse Q) × (r.0.parent ≡ some q') × (q'.state ≡ State.activated))
    unfolding connect stop_parent
    connect-PortEnding answers defaults now d blank q =
        let (d₁, q₁, _) = deactivate parent_ps2 now d q in
        let (ending, there) = attach-PortEnding answers defaults now d₁ blank (some q₁) in
        (moved _ _ _ _ ending, start_parent-activated parent_ps2 acks now _ _ (there (q₁, refl)))
