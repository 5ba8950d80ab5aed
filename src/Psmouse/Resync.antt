-- ===== src/Psmouse/Resync.antt =====
-- psmouse-base.c: `psmouse_resync`, the work that re-validates the protocol after a loss of
-- synchronisation. `parent` is the mouse whose pass-through port this one hangs on, if any, and
-- `parent_ps2` its own port; both ports act on the one device state. The pauses between the
-- attempts are not modelled.
pub mod Outcome
pub mod Rounds
pub mod Recovery
use debugging.Common.{
  ℕ, zero, suc, ◌+◌, ◌%◌, ◌<◌, Bool, true, false, not, List, [], ◌∷◌, Option, none, some, ltb, ◌==◌,
  ◌&&◌, ◌||◌, if◌then◌else◌,
}
use debugging.Kernel.{Ps2, Reply, u8, u64, reconnect}
use debugging.Psmouse.{Psmouse, State, Handler, Ret, emit, is_resyncing}
use debugging.Psmouse.Receive.{set_state}
use debugging.Psmouse.Command.{activate, deactivate, cmd_disable, cmd_enable}

-- The field `poll`.
abbrev pub Poll : Type 0 → Type 0 → Type 0
Poll D P = D → Psmouse P → D × Psmouse P × ℕ

-- The device, the mouse and its parent.
pub record World (D P Q : Type 0) : Type 0 where
  pub device : D
  pub mouse : Psmouse P
  pub parent : Option (Psmouse Q)

abbrev pub is_full : Ret → Bool
is_full Ret.full_packet = true
is_full _ = false

-- The loop over the polled packet: the counter is raised and the handler called until it gives
-- anything but GOOD_DATA. `i` stays below the size, a byte, so that 256 rounds are enough.
pub feed : {P : Type 0} → Handler P → ℕ → ℕ → Psmouse P → Psmouse P × Ret
feed handler zero i m = (m, Ret.good_data)
feed handler (suc fuel) i m =
    let (m', rc) = handler (record m { pktcnt = u8 (m.pktcnt + 1) }) in
    let rest = feed handler fuel (i + 1) m' in
    if ltb i m.pktsize
    then elim rc [
      | Ret.good_data ↦ rest
      | Ret.full_packet ↦ (m', Ret.full_packet)
      | Ret.bad_data ↦ (m', Ret.bad_data)
    ]
    else (m, Ret.good_data)

-- At most `n` attempts to enable the mouse.
pub enable_tries : {D : Type 0} → Ps2 D → ℕ → D → D × Bool
enable_tries ps2 zero d = (d, false)
enable_tries ps2 (suc n) d =
    let r = ps2.command d cmd_enable ps2.uninit in
    let rest = enable_tries ps2 n r.device in if r.code == 0 then (r.device, true) else rest

module _ {D Q : Type 0} (parent_ps2 : Ps2 D) where
  unfoldable pub stop_parent : ℕ → D → Option (Psmouse Q) → D × Option (Psmouse Q)
  stop_parent now d none = (d, none)
  stop_parent now d (some q) = let (d', q', _) = deactivate parent_ps2 now d q in (d', some q')

  unfoldable pub start_parent : ℕ → D → Option (Psmouse Q) → D × Option (Psmouse Q)
  start_parent now d none = (d, none)
  start_parent now d (some q) = let (d', q', _) = activate parent_ps2 now d q in (d', some q')

module _ {P : Type 0} where
  -- The last part: back to work, or a reconnect.
  pub settle : ℕ → Bool → Psmouse P → Psmouse P
  unfolding set_state
  settle now failed m =
      if failed
      then emit (set_state now State.ignore m) (reconnect ∷ [])
      else set_state now State.activated m

  -- The polled packet through the handler, from and back to the state of a resync; true if it is
  -- no full packet.
  pub check_packet : Handler P → ℕ → Psmouse P → Psmouse P × Bool
  unfolding set_state
  check_packet handler now m =
      let (fed, rc) = feed handler 256 0 (set_state now State.cmd_mode m) in
      (set_state now State.resyncing fed, not (is_full rc))

module _ {D P : Type 0} (ps2 : Ps2 D) (poll : Poll D P) (handler : Handler P) where
  -- Polling the mouse and handling the packet; true if that failed.
  pub poll_packet : ℕ → D → Psmouse P → D × Psmouse P × Bool
  poll_packet now d m =
      let (d', polled, code) = poll d m in
      let (checked, failed) = check_packet handler now polled in
      if code == 0 then (d', checked, failed) else (d', polled, true)

  -- From the count of resyncs to the polled packet; true if one of the steps failed.
  pub revalidate : ℕ → D → Psmouse P → D × Psmouse P × Bool
  revalidate now d m₀ =
      let m = record m₀ { num_resyncs = u64 (m₀.num_resyncs + 1) } in
      let (d', code) = ps2.sendbyte d cmd_disable 20 in
      if code == 0
      then poll_packet now d' (record m { acks_disable_command = true })
      else if ltb m.num_resyncs 3 || m.acks_disable_command
      then (d', m, true)
      else poll_packet now d' m

  module _ {Q : Type 0} (parent_ps2 : Ps2 D) where
    -- The whole of `psmouse_resync`.
    unfoldable pub resync : ℕ → World D P Q → World D P Q
    unfolding stop_parent start_parent
    resync now w =
        let (d₁, stopped) = stop_parent parent_ps2 now w.device w.parent in
        let (d₂, m₂, failed) = revalidate now d₁ w.mouse in
        let (d₃, enabled) = enable_tries ps2 5 d₂ in
        let (d₄, started) = start_parent parent_ps2 now d₃ stopped in
        if is_resyncing w.mouse.state
        then record { device = d₄; mouse = settle now (failed || not enabled) m₂; parent = started }
        else w
