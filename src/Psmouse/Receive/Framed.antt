-- ===== src/Psmouse/Receive/Framed.antt =====
-- `psmouse_receive_byte` with a handler that collects packets, whose size shows in their bytes, and turns each into an
-- effect on the driver's data and a report. The drivers with such a handler give its laws; a
-- handler may read the clock.
pub mod Filling
pub mod Packets
use debugging.Common.{
  ℕ, zero, suc, ◌+◌, ◌/◌, ◌^◌, ◌≤◌, ◌<◌, ◌≡◌, ◌≢◌, inl, inr, Bool, true, false, List, [], ◌∷◌, ◌++◌,
  ◌∙◌, sym, refl, arith, ap, ◌==◌, Bool-cases, All, append_assoc, append-nil,
}
use mathlib.Core.Path.{subst}
use debugging.Kernel.{Headers, IsLinux, Bytes, Effect, u64, wakeup}
use debugging.Kernel.Observe.{deeds, deeds-append}
use debugging.Psmouse.{Psmouse, State, Handler, Ret, ret_bat, emit}
use debugging.Psmouse.Receive.{handle_byte, store, receive_byte, receive_bytes}
use debugging.Psmouse.Receive.Step.{served, receive_byte-served, IsTimely}
use debugging.Psmouse.Receive.Packet.{on_time, handle_byte-full}

-- What a driver makes of its packets: the index of the last byte of each, the size that stands in the mouse,
-- the packets it accepts, and for each, at the time of its last byte, the data and the report.
pub record Frame (P : Type 0) : Type 0 where
  pub last : Bytes → ℕ
  pub pktsize : ℕ
  pub accepts : Bytes → Bool
  pub step : ℕ → Bytes → P → P
  pub report : ℕ → Bytes → P → List Effect

-- The mouse has the bytes of `p` below `n`.
abbrev pub Holds : {P : Type 0} → Psmouse P → Bytes → ℕ → Type 0
Holds m p n = (i : ℕ) → i < n → m.packet i ≡ p i

-- A handler implements the frame: it asks for more before the last byte of an accepted packet, and
-- with it has taken the step and made the report. It may write to the packet then.
pub record IsFramed {P : Type 0} (handler : ℕ → Handler P) (f : Frame P) : Type 0 where
  pub fits : (p : Bytes) → f.last p < 8
  pub asks :
      (now k : ℕ) (p : Bytes) (m : Psmouse P)
      → f.accepts p ≡ true
      → k < f.last p
      → m.pktcnt ≡ suc k
      → m.pktsize ≡ f.pktsize
      → Holds m p (suc k)
      → handler now m ≡ (m, Ret.good_data)
  pub full :
      (now : ℕ) (p : Bytes) (m : Psmouse P)
      → f.accepts p ≡ true
      → m.pktcnt ≡ suc (f.last p)
      → m.pktsize ≡ f.pktsize
      → Holds m p (suc (f.last p))
      → (q : Bytes) × (handler now m ≡ (
        record m {
          packet = q;
          private = f.step now p m.private;
          effects = m.effects ++ f.report now p m.private;
        },
        Ret.full_packet,
      ))

-- A packet whose first byte comes at `start`, and the byte k at `gap k` after the one before it.
pub record Arrival : Type 0 where
  pub packet : Bytes
  pub start : ℕ
  pub gap : ℕ → ℕ

abbrev pub time : Arrival → ℕ → ℕ
time a zero = a.start
time a (suc k) = time a k + a.gap (suc k)

-- The bytes from k on, `count` of them.
abbrev pub bytes_from : Arrival → ℕ → ℕ → List (ℕ × ℕ)
bytes_from a zero k = []
bytes_from a (suc count) k = (u64 (time a k), a.packet k) ∷ bytes_from a count (suc k)

module _ {P : Type 0} where
  -- A run of bytes, each with its time, where the handler reads the clock.
  unfoldable pub receive_timed : Headers → (ℕ → Handler P) → List (ℕ × ℕ) → Psmouse P → Psmouse P
  receive_timed h handler [] m = m
  receive_timed h handler ((now, byte) ∷ bs) m =
      receive_timed h handler bs (receive_byte h (handler now) now byte m)

  pub receive_timed-timeless :
      (h : Headers) (handler : Handler P) (bs : List (ℕ × ℕ)) (m : Psmouse P)
      → receive_timed h (λ now. handler) bs m ≡ receive_bytes h handler bs m
  unfolding receive_timed receive_bytes
  receive_timed-timeless h handler [] m = refl
  receive_timed-timeless h handler ((now, byte) ∷ bs) m =
      receive_timed-timeless h handler bs (receive_byte h handler now byte m)

  pub receive_timed-append :
      (h : Headers) (handler : ℕ → Handler P) (bs cs : List (ℕ × ℕ)) (m : Psmouse P)
      → receive_timed h handler (bs ++ cs) m
        ≡ receive_timed h handler cs (receive_timed h handler bs m)
  unfolding receive_timed
  receive_timed-append h handler [] cs m = refl
  receive_timed-append h handler ((now, byte) ∷ bs) cs m =
      receive_timed-append h handler bs cs (receive_byte h (handler now) now byte m)

  abbrev pub arrivals : Frame P → List Arrival → List (ℕ × ℕ)
  arrivals f [] = []
  arrivals f (a ∷ rest) = bytes_from a (suc (f.last a.packet)) 0 ++ arrivals f rest

  -- What the packets of a stream make of the data, and their reports.
  abbrev pub stepped : Frame P → List Arrival → P → P
  stepped f [] s = s
  stepped f (a ∷ rest) s = stepped f rest (f.step (u64 (time a (f.last a.packet))) a.packet s)

  abbrev pub reported : Frame P → List Arrival → P → List Effect
  reported f [] s = []
  reported f (a ∷ rest) s =
      let now = u64 (time a (f.last a.packet)) in
      deeds (f.report now a.packet s) ++ reported f rest (f.step now a.packet s)

  -- A mouse that is activated, between two packets.
  pub record IsReady (f : Frame P) (m : Psmouse P) : Type 0 where
    pub active : m.state ≡ State.activated
    pub between : m.pktcnt ≡ 0
    pub sized : m.pktsize ≡ f.pktsize
    pub no_idle_limit : m.resync_time ≡ 0

  -- An accepted packet, with no gap above half a second, that does not begin like the announcement
  -- of a device.
  abbrev pub IsOnTime : Headers → Frame P → Arrival → Type 0
  IsOnTime h f a =
      ((k : ℕ) → a.gap k ≤ h.hz / 2) × (a.packet 0 ≢ ret_bat) × (f.accepts a.packet ≡ true)
