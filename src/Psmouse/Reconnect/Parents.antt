-- ===== src/Psmouse/Reconnect/Parents.antt =====
-- The mouse of a parent port over what is done to it for a child: that it stays, and works again.
use debugging.Common.{ℕ, ◌≡◌, Option, none, some, refl}
use debugging.Kernel.{Ps2}
use debugging.Psmouse.{Psmouse, State}
use debugging.Psmouse.Receive.{set_state}
use debugging.Psmouse.Command.{activate, cmd_enable}
use debugging.Psmouse.Resync.{stop_parent, start_parent}
use debugging.Psmouse.Reconnect.{on_parent}

-- A parent that is there, in whatever state.
abbrev pub IsThere : {Q : Type 0} → Option (Psmouse Q) → Type 0
IsThere {Q} parent = (q : Psmouse Q) × (parent ≡ some q)

pub on_parent-IsThere :
    {D Q : Type 0} (f : Option (D → Psmouse Q → D × Psmouse Q)) (d : D)
    (parent : Option (Psmouse Q))
    → IsThere parent
    → IsThere (on_parent f d parent).1
on_parent-IsThere none d parent there = there
on_parent-IsThere (some f) d none there = cc
on_parent-IsThere (some f) d (some q) there = ((f d q).1, refl)

module _ {D Q : Type 0} (parent_ps2 : Ps2 D) where
  pub stop_parent-IsThere :
      (now : ℕ) (d : D) (parent : Option (Psmouse Q))
      → IsThere parent
      → IsThere (stop_parent parent_ps2 now d parent).1
  unfolding stop_parent
  stop_parent-IsThere now d none there = there
  stop_parent-IsThere now d (some q) there = (_, refl)

  -- A parent whose device acknowledges the enabling.
  module _ (acks : (d : D) → (parent_ps2.command d cmd_enable parent_ps2.uninit).code ≡ 0) where
    pub start_parent-activated :
        (now : ℕ) (d : D) (parent : Option (Psmouse Q))
        → IsThere parent
        → (q : Psmouse Q) × ((start_parent parent_ps2 now d parent).1 ≡ some q)
          × (q.state ≡ State.activated)
    unfolding start_parent activate set_state
    start_parent-activated now d none there = cc
    start_parent-activated now d (some q) there = simp (acks d) (_, refl, refl)
