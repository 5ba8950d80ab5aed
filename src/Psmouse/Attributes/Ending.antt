-- ===== src/Psmouse/Attributes/Ending.antt =====
-- How a write to the file of the protocol ends.
use debugging.Common.{
  ℕ, zero, suc, ◌+◌, ◌≡◌, ◌≢◌, ◌⊎◌, inl, inr, Bool, true, false, Option, none, some, refl, ap, ◌∙◌,
  arith, ◌==◌, ◌&&◌, Bool-cases,
}
use debugging.Kernel.{Ps2, enodev, einval}
use debugging.Psmouse.{Psmouse, PsmouseType, Protocol, State}
use debugging.Psmouse.Receive.{set_state, is_ignore}
use debugging.Psmouse.Command.{activate, cmd_enable}
use debugging.Psmouse.Resync.{Poll, stop_parent, start_parent}
use debugging.Psmouse.Detect.{Probes}
use debugging.Psmouse.Reconnect.{Hooks}
use debugging.Psmouse.Reconnect.Parents.{
  IsThere, on_parent-IsThere, stop_parent-IsThere, start_parent-activated,
}
use debugging.Psmouse.Switch.{Entry}
use debugging.Psmouse.Attributes.{
  InputDevice, Answers, Changed, settle_device, change_protocol, clear_children, after_children,
  attr_set_protocol, attr_set_helper, paused, resumed,
}
use debugging.Psmouse.Table.{same_type}

-- The code -ENODEV comes of a round over the child ports after which another driver had the port, or
-- of the registration of the new input device.
abbrev pub IsLost : {D P : Type 0} → Answers D P → Type 0
IsLost answers = (k : ℕ) × (answers.has_children k ≡ true) × (answers.is_ours k ≡ false)

-- A write that fails keeps the input device, and only an SMBus companion is without one.
pub record IsConsistent {D P Q : Type 0} (answers : Answers D P) (c : Changed D P Q) (code : ℕ)
    : Type 0 where
  pub refused_keeps : code ≢ 0 → c.input ≡ InputDevice.kept
  pub dropped_companion : c.input ≡ InputDevice.dropped → c.mouse.protocol.smbus_companion ≡ true
  pub lost : code ≡ enodev → IsLost answers ⊎ (answers.register_code ≡ enodev)

-- The mouse is back at work, or it is a companion; or the write ended with -ENODEV, since the port was
-- lost to another driver or the registration of the input device gave that code.
abbrev pub Works : {D P Q : Type 0} → Answers D P → Changed D P Q → ℕ → Type 0
Works answers c code =
    ((code ≡ enodev) × (IsLost answers ⊎ (answers.register_code ≡ enodev)))
    ⊎ ((c.mouse.protocol.smbus_companion ≡ true) ⊎ (c.mouse.state ≡ State.activated))

and-false : (b : Bool) → (b && false) ≡ false
and-false true = refl
and-false false = refl

clear_children-lost :
    {D P : Type 0} (answers : Answers D P) (type : PsmouseType) (left k : ℕ) (d : D) (m : Psmouse P)
    → (clear_children answers type left k d m).2 ≡ some enodev
    → IsLost answers
unfolding clear_children
clear_children-lost answers type zero k d m e = absurd (ground arith)
clear_children-lost answers type (suc left) k d m e =
    let (d', m') = answers.others k d m in
    elim (Bool-cases (answers.has_children k)) [
      | inr none_left ↦ absurd (ground arith)
      | inl child ↦ elim (Bool-cases (answers.is_ours k)) [
        | inr theirs ↦ (k, child, theirs)
        | inl ours ↦ clear_children-lost answers type left (k + 1) d' m' (ground arith)
      ]
    ]

module _ {D P Q : Type 0} (ps2 parent_ps2 : Ps2 D) (hooks : PsmouseType → Hooks D P Q)
    (pt_activate pt_deactivate : Option (D → Psmouse Q → D × Psmouse Q)) (poll_mouse : Poll D P)
    (probes : Probes (D × Psmouse P)) (by_type : PsmouseType → Protocol) (max_proto : ℕ)
    (entry : PsmouseType → Entry D P) where
  settle_device-IsConsistent :
      (answers : Answers D P) (now : ℕ) (old : PsmouseType) (d : D) (m : Psmouse P)
      (parent : Option (Psmouse Q))
      → let r =
          settle_device ps2 parent_ps2 hooks pt_activate pt_deactivate poll_mouse probes by_type
            max_proto entry answers now old d m parent in
        IsConsistent answers r.0 r.1 × (IsThere parent → IsThere r.0.parent)
  unfolding settle_device
  settle_device-IsConsistent answers now old d m parent =
      elim (Bool-cases m.protocol.smbus_companion) [
        | inl companion ↦ simp companion (
          record {
            refused_keeps = λ ne. absurd (ne refl);
            dropped_companion = λ e. companion;
            lost = λ e. absurd (omega arith);
          },
          on_parent-IsThere pt_activate d parent,
        )
        | inr own ↦ elim (Bool-cases (answers.register_code == 0)) [
          | inl registered ↦
              simp (own, registered)
                (
                  record {
                    refused_keeps = λ ne. absurd (ne refl);
                    dropped_companion = λ e. cc;
                    lost = λ e. absurd (omega arith);
                  },
                  on_parent-IsThere pt_activate d parent,
                )
          | inr refused ↦
              simp (own, refused)
                (
                  record {
                    refused_keeps = λ ne. refl;
                    dropped_companion = λ e. cc;
                    lost = λ e. inr e;
                  },
                  λ there. there,
                )
        ]
      ]

  change_protocol-IsConsistent :
      (answers : Answers D P) (now : ℕ) (proto : Entry D P) (d : D) (m : Psmouse P)
      (parent : Option (Psmouse Q))
      → let r =
          change_protocol ps2 parent_ps2 hooks pt_activate pt_deactivate poll_mouse probes by_type
            max_proto entry answers now proto d m parent in
        IsConsistent answers r.0 r.1 × (IsThere parent → IsThere r.0.parent)
  unfolding change_protocol
  change_protocol-IsConsistent answers now proto d m parent =
      let (consistent, there) = settle_device-IsConsistent answers now m.protocol.type _ _ _ in
      (consistent, λ is. there (on_parent-IsThere pt_deactivate d parent is))

  stay-IsConsistent :
      (answers : Answers D P) (u : D) (n : Psmouse P) (parent : Option (Psmouse Q)) (code : ℕ)
      → (code ≡ enodev → IsLost answers)
      → IsConsistent answers
          (record { device = u; mouse = n; parent = parent; input = InputDevice.kept })
          code
  stay-IsConsistent answers u n parent code gone = record {
    refused_keeps = λ ne. refl;
    dropped_companion = λ e. cc;
    lost = λ e. inl (gone e);
  }

  after_children-IsConsistent :
      (answers : Answers D P) (now : ℕ) (proto : Entry D P) (cleared : D × Psmouse P × Option ℕ)
      (parent : Option (Psmouse Q))
      → (cleared.2 ≡ some enodev → IsLost answers)
      → let r =
          after_children ps2 parent_ps2 hooks pt_activate pt_deactivate poll_mouse probes by_type
            max_proto entry answers now proto cleared parent in
        IsConsistent answers r.0 r.1 × (IsThere parent → IsThere r.0.parent)
  unfolding after_children
  after_children-IsConsistent answers now proto (d, m, some code) parent gone =
      (stay-IsConsistent answers d m parent code (λ e. gone (rw e refl)), λ is. is)
  after_children-IsConsistent answers now proto (d, m, none) parent gone =
      change_protocol-IsConsistent answers now proto d m parent

  attr_set_protocol-IsConsistent :
      (answers : Answers D P) (now : ℕ) (found : Option (Entry D P)) (d : D) (m : Psmouse P)
      (parent : Option (Psmouse Q))
      → let r =
          attr_set_protocol ps2 parent_ps2 hooks pt_activate pt_deactivate poll_mouse probes by_type
            max_proto entry answers now found d m parent in
        IsConsistent answers r.0 r.1 × (IsThere parent → IsThere r.0.parent)
  unfolding attr_set_protocol
  attr_set_protocol-IsConsistent answers now none d m parent =
      (stay-IsConsistent answers d m parent einval (λ e. absurd (omega arith)), λ is. is)
  attr_set_protocol-IsConsistent answers now (some proto) d m parent =
      elim (Bool-cases (same_type m.protocol.type proto.protocol.type)) [
        | inl same ↦
            simp same (stay-IsConsistent answers _ _ parent _ (λ e. absurd (omega arith)), λ is. is)
        | inr other ↦ elim (Bool-cases answers.allocated) [
          | inr poor ↦
              simp (other, poor)
                (stay-IsConsistent answers _ _ parent _ (λ e. absurd (omega arith)), λ is. is)
          | inl rich ↦
              simp (other, rich)
                (after_children-IsConsistent answers now proto
                  (clear_children answers proto.protocol.type 3 0 d m) parent
                  (clear_children-lost answers proto.protocol.type 3 0 d m))
        ]
      ]

  resumed-protocol :
      (now code : ℕ) (d : D) (m : Psmouse P)
      → (resumed ps2 parent_ps2 hooks pt_activate pt_deactivate poll_mouse probes by_type max_proto
          entry now code d m).1.protocol
        ≡ m.protocol
  unfolding activate set_state
  resumed-protocol now code d m = ground arith

  resumed-Works :
      ((u : D) → (ps2.command u cmd_enable ps2.uninit).code ≡ 0)
      → (now code : ℕ) (d : D) (m : Psmouse P)
      → (code ≡ enodev)
        ⊎ ((m.protocol.smbus_companion ≡ true)
            ⊎ ((resumed ps2 parent_ps2 hooks pt_activate pt_deactivate poll_mouse probes by_type
                  max_proto entry now code d m).1.state
                ≡ State.activated))
  unfolding activate set_state
  resumed-Works acks now code d m = elim (Bool-cases (code == enodev)) [
    | inl lost ↦ inl (ground arith)
    | inr here ↦ elim (Bool-cases m.protocol.smbus_companion) [
      | inl companion ↦ inr (inl companion)
      | inr own ↦ inr (inr (rw (here, own, acks d) refl))
    ]
  ]

  -- What the end of a protected write makes of the outcome of `set`.
  module _ (acks : (u : D) → (ps2.command u cmd_enable ps2.uninit).code ≡ 0)
      (parent_acks : (u : D) → (parent_ps2.command u cmd_enable parent_ps2.uninit).code ≡ 0) where
    abbrev finished : ℕ → Changed D P Q × ℕ → Changed D P Q × ℕ
    finished now (c, code) =
        let (d', m') =
          resumed ps2 parent_ps2 hooks pt_activate pt_deactivate poll_mouse probes by_type max_proto
            entry now code c.device c.mouse in
        let (d'', started) = start_parent parent_ps2 now d' c.parent in
        (record c { device = d''; mouse = m'; parent = started }, code)

    finished-Works :
        (answers : Answers D P) (now : ℕ) (r : Changed D P Q × ℕ)
        → IsConsistent answers r.0 r.1
        → IsThere r.0.parent
        → let (c, code) = finished now r in
          Works answers c code
          × IsConsistent answers c code
          × ((q' : Psmouse Q) × (c.parent ≡ some q') × (q'.state ≡ State.activated))
    finished-Works answers now (c, code) consistent there =
        let same = resumed-protocol now code c.device c.mouse in
        let flag : (finished now (c, code)).0.mouse.protocol.smbus_companion
            ≡ c.mouse.protocol.smbus_companion =
          ap (λ (p : Protocol). p.smbus_companion) same in
        (
          elim (resumed-Works acks now code c.device c.mouse) [
            | inl gone ↦ inl (gone, consistent.lost gone)
            | inr (inl companion) ↦ inr (inl (flag ∙ companion))
            | inr (inr active) ↦ inr (inr active)
          ],
          record {
            refused_keeps = consistent.refused_keeps;
            dropped_companion = λ e. flag ∙ consistent.dropped_companion e;
            lost = consistent.lost;
          },
          start_parent-activated parent_ps2 parent_acks now _ c.parent there,
        )

  is_ignore-false : (s : State) → s ≢ State.ignore → is_ignore s ≡ false
  unfolding is_ignore
  is_ignore-false State.ignore ne = absurd (ne refl)
  is_ignore-false State.initializing ne = refl
  is_ignore-false State.resyncing ne = refl
  is_ignore-false State.cmd_mode ne = refl
  is_ignore-false State.activated ne = refl

  -- A write to the file of the protocol that gets the lock, on a mouse that is not ignored and whose
  -- port has a parent, with devices that acknowledge the enabling: whatever else the devices, the
  -- kernel and other threads do, the mouse is an SMBus companion or activated again, unless the write
  -- ends with -ENODEV; and then either the port was lost to another driver while its child ports were
  -- unregistered, or the registration of the new input device gave -ENODEV itself. A write that fails
  -- keeps the input device, and only a companion is left without one; and the parent is activated
  -- again.
  pub attr_set_helper-Works :
      ((u : D) → (ps2.command u cmd_enable ps2.uninit).code ≡ 0)
      → ((u : D) → (parent_ps2.command u cmd_enable parent_ps2.uninit).code ≡ 0)
      → (answers : Answers D P) (now : ℕ) (found : Option (Entry D P)) (d : D) (m : Psmouse P)
        (q : Psmouse Q)
      → m.state ≢ State.ignore
      → let set =
          attr_set_protocol ps2 parent_ps2 hooks pt_activate pt_deactivate poll_mouse probes by_type
            max_proto entry answers now found in
        let (c, code) =
          attr_set_helper ps2 parent_ps2 hooks pt_activate pt_deactivate poll_mouse probes by_type
            max_proto entry 0 true true set now d m
            (some q) in
        Works answers c code
        × IsConsistent answers c code
        × ((q' : Psmouse Q) × (c.parent ≡ some q') × (q'.state ≡ State.activated))
  unfolding attr_set_helper
  attr_set_helper-Works acks parent_acks answers now found d m q seen =
      let (d₁, stopped) = stop_parent parent_ps2 now d (some q) in
      let (d₂, m₂) =
        paused ps2 parent_ps2 hooks pt_activate pt_deactivate poll_mouse probes by_type max_proto
          entry now d₁ m in
      let (consistent, there) = attr_set_protocol-IsConsistent answers now found d₂ m₂ stopped in
      let run =
        finished-Works acks parent_acks answers now _ consistent
          (there (stop_parent-IsThere parent_ps2 now d (some q) (q, refl))) in
      simp (is_ignore-false m.state seen, and-false m.protocol.smbus_companion) run
