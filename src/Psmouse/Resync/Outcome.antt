-- ===== src/Psmouse/Resync/Outcome.antt =====
-- How a resync ends, whatever the device answers.
use debugging.Common.{
  ℕ, zero, suc, ◌+◌, ◌<◌, ◌≡◌, inl, inr, Bool, true, false, not, [], ◌∷◌, arith, refl, ◌==◌, ◌||◌,
  Bool-cases,
}
use debugging.Kernel.Observe.{reconnects, reconnects-append}
use debugging.Kernel.{u8, u64, Ps2, Reply, reconnect}
use debugging.Psmouse.{Psmouse, State, Handler}
use debugging.Psmouse.Receive.{set_state}
use debugging.Psmouse.Command.{cmd_enable, cmd_disable}
use debugging.Psmouse.Resync.{
  Poll, World, feed, enable_tries, poll_packet, revalidate, settle, resync, check_packet,
  stop_parent,
}

-- The device after k attempts to enable it that failed or not.
abbrev pub after_enables : {D : Type 0} → Ps2 D → ℕ → D → D
after_enables ps2 zero d = d
after_enables ps2 (suc k) d = after_enables ps2 k (ps2.command d cmd_enable ps2.uninit).device

-- The k-th attempt is acknowledged.
abbrev pub Enables : {D : Type 0} → Ps2 D → ℕ → D → Type 0
Enables ps2 k d = (ps2.command (after_enables ps2 k d) cmd_enable ps2.uninit).code ≡ 0

-- If the loop says so, one of its attempts is acknowledged.
enable_tries-Enables :
    {D : Type 0} (ps2 : Ps2 D) (n : ℕ) (d : D)
    → (enable_tries ps2 n d).1 ≡ true
    → (k : ℕ) × (k < n) × Enables ps2 k d
unfolding enable_tries
enable_tries-Enables ps2 zero d h = cc
enable_tries-Enables {D} ps2 (suc n) d h = elim (Bool-cases (r.code == 0)) [
  | inl acked ↦ (0, omega arith, ground arith)
  | inr silent ↦
      let (k, below, enables) = enable_tries-Enables ps2 n r.device (ground arith) in
      (suc k, omega arith, enables)
]
  where
    r : Reply D
    r = ps2.command d cmd_enable ps2.uninit

-- A handler that asks for no reconnect, and a poll that does not either.
abbrev pub IsQuiet : {P : Type 0} → Handler P → Type 0
IsQuiet {P} handler = (m : Psmouse P) → reconnects (handler m).0.effects ≡ reconnects m.effects

abbrev pub IsQuietPoll : {D P : Type 0} → Poll D P → Type 0
IsQuietPoll {D} {P} poll =
    (d : D) (m : Psmouse P) → reconnects (poll d m).1.effects ≡ reconnects m.effects

module _ {P : Type 0} (handler : Handler P) (quiet : IsQuiet handler) where
  feed-quiet :
      (fuel i : ℕ) (m : Psmouse P)
      → reconnects (feed handler fuel i m).0.effects ≡ reconnects m.effects
  unfolding feed
  feed-quiet zero i m = refl
  feed-quiet (suc fuel) i m =
      let counted = record m { pktcnt = u8 (m.pktcnt + 1) } in
      ground (arith, quiet counted, feed-quiet fuel (i + 1) (handler counted).0)

  check_packet-quiet :
      (now : ℕ) (m : Psmouse P)
      → reconnects (check_packet handler now m).0.effects ≡ reconnects m.effects
  unfolding check_packet
  check_packet-quiet now m = feed-quiet 256 0 (set_state now State.cmd_mode m)

module _ {D P : Type 0} (ps2 : Ps2 D) (poll : Poll D P) (handler : Handler P)
    (quiet : IsQuiet handler) (quiet_poll : IsQuietPoll poll) where
  poll_packet-quiet :
      (now : ℕ) (d : D) (m : Psmouse P)
      → reconnects (poll_packet ps2 poll handler now d m).1.effects ≡ reconnects m.effects
  unfolding poll_packet
  poll_packet-quiet now d m =
      ground (arith, quiet_poll d m, check_packet-quiet handler quiet now (poll d m).1)

  revalidate-quiet :
      (now : ℕ) (d : D) (m : Psmouse P)
      → reconnects (revalidate ps2 poll handler now d m).1.effects ≡ reconnects m.effects
  unfolding revalidate
  revalidate-quiet now d m =
      let counted = record m { num_resyncs = u64 (m.num_resyncs + 1) } in
      let d' = (ps2.sendbyte d cmd_disable 20).0 in
      ground (
        arith,
        poll_packet-quiet now d' counted,
        poll_packet-quiet now d' (record counted { acks_disable_command = true }),
      )

-- The two ends of a resync.
pub data Ending {P : Type 0} (now before : ℕ) (Enabled : Type 0) (m : Psmouse P) : Type 0 where
  back :
      m.state ≡ State.activated
      → reconnects m.effects ≡ before
      → Enabled
      → Ending now before Enabled m
  lost : m.state ≡ State.ignore → reconnects m.effects ≡ before + 1 → Ending now before Enabled m

settle-Ending :
    {P : Type 0} (now before : ℕ) (Enabled : Type 0) (failed : Bool) (m : Psmouse P)
    → reconnects m.effects ≡ before
    → (failed ≡ false → Enabled)
    → Ending now before Enabled (settle now failed m)
unfolding settle set_state
settle-Ending now before Enabled true m e f =
    lost refl (omega (arith, reconnects-append m.effects (reconnect ∷ [])))
settle-Ending now before Enabled false m e f = back refl e (f refl)

settle-counters :
    {P : Type 0} (now : ℕ) (failed : Bool) (m : Psmouse P)
    → ((settle now failed m).pktcnt ≡ 0) × ((settle now failed m).out_of_sync_cnt ≡ 0)
unfolding settle set_state
settle-counters now true m = (refl, refl)
settle-counters now false m = (refl, refl)

enabled_of_settled :
    {D : Type 0} (ps2 : Ps2 D) (b : Bool) (d : D)
    → (b || not (enable_tries ps2 5 d).1) ≡ false
    → (k : ℕ) × (k < 5) × Enables ps2 k d
enabled_of_settled ps2 b d h = enable_tries-Enables ps2 5 d (ground arith)

module _ {D P Q : Type 0} (ps2 parent_ps2 : Ps2 D) (poll : Poll D P) (handler : Handler P) where
  -- The device and the mouse after the check of the protocol, and whether that failed.
  abbrev pub validated : ℕ → World D P Q → D × Psmouse P × Bool
  validated now w =
      revalidate ps2 poll handler now (stop_parent parent_ps2 now w.device w.parent).0 w.mouse

  pub resync-resyncing :
      (now : ℕ) (w : World D P Q)
      → w.mouse.state ≡ State.resyncing
      → (resync ps2 poll handler parent_ps2 now w).mouse
        ≡ settle now
            ((validated now w).2 || not (enable_tries ps2 5 (validated now w).0).1)
            (validated now w).1
  unfolding resync
  resync-resyncing now w e = ground arith

  -- A resync of a mouse that waits for one, whatever the device answers, ends in one of two ways: the
  -- mouse is activated, no reconnect was requested, and one of the at most five attempts to enable
  -- it was acknowledged; or it is ignored and one reconnect was requested. Its counters are 0 in
  -- both. (The handler and the poll request no reconnect.)
  pub resync-Ending :
      (quiet : IsQuiet handler) (quiet_poll : IsQuietPoll poll) (now : ℕ) (w : World D P Q)
      → w.mouse.state ≡ State.resyncing
      → let w' = resync ps2 poll handler parent_ps2 now w in
        Ending now
          (reconnects w.mouse.effects)
          ((k : ℕ) × (k < 5) × Enables ps2 k (validated now w).0)
          w'.mouse
        × (w'.mouse.pktcnt ≡ 0)
        × (w'.mouse.out_of_sync_cnt ≡ 0)
  resync-Ending quiet quiet_poll now w e = rw (resync-resyncing now w e) (
    settle-Ending now (reconnects w.mouse.effects) _ _ (validated now w).1
        (revalidate-quiet ps2 poll handler quiet quiet_poll now _ w.mouse)
        (enabled_of_settled ps2 (validated now w).2 (validated now w).0),
    (settle-counters now _ (validated now w).1).0,
    (settle-counters now _ (validated now w).1).1,
  )
