-- ===== src/Psmouse/Receive/Packet.antt =====
-- One packet of a plain mouse, byte by byte through `psmouse_receive_byte`.
use debugging.Common.{
  ℕ, ◌+◌, ◌/◌, ◌^◌, ◌-◌, ◌≤◌, ◌<◌, ◌≡◌, inl, inr, false, List, [], ◌∷◌, ◌++◌, append-nil, ◌∙◌, refl,
  arith, bit_or,
}
use debugging.Kernel.{Headers, IsLinux, Input, u64, update, wakeup}
use debugging.Kernel.Observe.{inputs, inputs-append}
use debugging.Psmouse.{Psmouse, State, Ret, Handler, emit}
use debugging.Psmouse.Process.{process_byte}
use debugging.Psmouse.Process.Laws.{IsPlain, process_byte-plain}
use debugging.Psmouse.Report.{report_standard_packet, sync}
use debugging.Psmouse.Report.Packets.{
  Movement, IsSmall, first_byte, low, press, standard_report, report_standard_packet-press,
}
use debugging.Psmouse.Receive.{handle_byte, store, receive_byte, receive_bytes}
use debugging.Psmouse.Receive.Step.{served, receive_byte-served}

-- A movement and the times of its three bytes: the first, and the gaps before the other two.
pub record Arrival : Type 0 where
  pub movement : Movement
  pub start : ℕ
  pub gap₁ : ℕ
  pub gap₂ : ℕ

abbrev pub arriving : Arrival → List (ℕ × ℕ)
arriving a =
    (u64 a.start, first_byte a.movement)
    ∷ (u64 (a.start + a.gap₁), low a.movement.dx)
    ∷ (u64 (a.start + a.gap₁ + a.gap₂), low a.movement.dy)
    ∷ []

-- Small displacements, and no gap above half a second.
abbrev pub IsOnTime : Headers → Arrival → Type 0
IsOnTime h a = IsSmall a.movement × (a.gap₁ ≤ h.hz / 2) × (a.gap₂ ≤ h.hz / 2)

-- An activated plain mouse between two packets, with no idle limit.
pub record IsStreaming {P : Type 0} (extra : ℕ) (m : Psmouse P) : Type 0 where
  pub active : m.state ≡ State.activated
  pub between : m.pktcnt ≡ 0
  pub size : m.pktsize ≡ 3
  pub no_idle_limit : m.resync_time ≡ 0
  pub plain : IsPlain m.protocol.type
  pub pressed : m.extra_buttons ≡ extra

pub handle_byte-full :
    {P : Type 0} (handler : Handler P) (now : ℕ) (m : Psmouse P) {m' : Psmouse P}
    → handler m ≡ (m', Ret.full_packet)
    → (handle_byte handler now m).0 ≡ record m' { pktcnt = 0; out_of_sync_cnt = 0 }
unfolding handle_byte
handle_byte-full handler now m e = rw e

-- A plain mouse in the middle of a packet, `count` bytes of which came, the last at `now`; the input
-- layer has got `es` so far.
record IsPartial {P : Type 0} (extra count now : ℕ) (es : List Input) (m : Psmouse P) : Type 0 where
  active : m.state ≡ State.activated
  counted : m.pktcnt ≡ count
  size : m.pktsize ≡ 3
  no_idle_limit : m.resync_time ≡ 0
  plain : IsPlain m.protocol.type
  pressed : m.extra_buttons ≡ extra
  timed : m.last ≡ now
  quiet : inputs m.effects ≡ es

pub inputs-wakeup :
    {P : Type 0} (m : Psmouse P) → inputs (m.effects ++ wakeup ∷ []) ≡ inputs m.effects
inputs-wakeup m = inputs-append m.effects (wakeup ∷ []) ∙ append-nil (inputs m.effects)

first_byte-lt : (v : Movement) → first_byte v < 128
first_byte-lt v = ground arith

-- A gap of at most half a second is no timeout, also across the wrap of the clock.
pub on_time :
    (h : Headers) (t gap : ℕ)
    → IsLinux h
    → h.hz < 2 ^ 63
    → gap ≤ h.hz / 2
    → h.time_after (u64 (t + gap)) (u64 (u64 t + h.hz / 2)) ≡ false
on_time h t gap linux z g =
    let same : u64 (u64 t + h.hz / 2) ≡ u64 (t + gap + (h.hz / 2 - gap)) = omega arith in
    rw same (linux.not_later (t + gap) (h.hz / 2 - gap) (omega arith))

module _ {P : Type 0} (h : Headers) where
  -- A byte that leaves the packet incomplete is stored and nothing else.
  served-more :
      (now byte : ℕ) (m : Psmouse P)
      → m.pktcnt + 1 < m.pktsize
      → m.pktsize ≤ 8
      → served (process_byte h) now byte m
        ≡ record (store byte (emit m (wakeup ∷ []))) { last = now }
  unfolding handle_byte process_byte
  served-more now byte m below fits = ground arith

  -- The byte that completes a packet.
  served-last :
      (now byte : ℕ) (m : Psmouse P)
      → m.pktcnt + 1 ≡ m.pktsize
      → m.pktsize ≤ 8
      → IsPlain m.protocol.type
      → let packet = update m.packet m.pktcnt byte in
        let full = update packet 0 (bit_or (packet 0) m.extra_buttons) in
        served (process_byte h) now byte m ≡ record m {
          packet = full;
          pktcnt = 0;
          out_of_sync_cnt = 0;
          last = now;
          effects = (m.effects ++ wakeup ∷ []) ++ (report_standard_packet full ++ sync ∷ []);
        }
  served-last now byte m full fits plain =
      handle_byte-full (process_byte h) now
        (record (store byte (emit m (wakeup ∷ []))) { last = now })
        (process_byte-plain h _ plain (ground arith))

  -- The first byte of a packet.
  first-IsPartial :
      (now byte extra : ℕ) (m : Psmouse P)
      → byte < 128
      → IsStreaming extra m
      → let m' = receive_byte h (process_byte h) now byte m in
        IsPartial extra 1 now (inputs m.effects) m' × (m'.packet 0 ≡ byte)
  first-IsPartial now byte extra m b s =
      rw
        (
          receive_byte-served h (process_byte h) now byte m s.active s.no_idle_limit (inl s.between)
              (ground arith),
          served-more now byte m (omega arith) (omega arith),
        )
        (
          record {
            active = s.active;
            counted = ground arith;
            size = s.size;
            no_idle_limit = s.no_idle_limit;
            plain = s.plain;
            pressed = s.pressed;
            timed = refl;
            quiet = inputs-wakeup m;
          },
          ground arith,
        )

  second-IsPartial :
      (now t byte extra : ℕ) (es : List Input) (m : Psmouse P)
      → h.time_after now (u64 (t + h.hz / 2)) ≡ false
      → m.packet 0 < 128
      → IsPartial extra 1 t es m
      → let m' = receive_byte h (process_byte h) now byte m in
        IsPartial extra 2 now es m' × (m'.packet 0 ≡ m.packet 0) × (m'.packet 1 ≡ byte)
  second-IsPartial now t byte extra es m late b s =
      rw
        (
          receive_byte-served h (process_byte h) now byte m s.active s.no_idle_limit
              (inr (rw s.timed late)) (ground arith),
          served-more now byte m (omega arith) (omega arith),
        )
        (
          record {
            active = s.active;
            counted = ground arith;
            size = s.size;
            no_idle_limit = s.no_idle_limit;
            plain = s.plain;
            pressed = s.pressed;
            timed = refl;
            quiet = inputs-wakeup m ∙ s.quiet;
          },
          ground arith,
          ground arith,
        )

  third-IsStreaming :
      (now t extra : ℕ) (v : Movement) (es : List Input) (m : Psmouse P)
      → h.time_after now (u64 (t + h.hz / 2)) ≡ false
      → IsSmall v
      → extra < 8
      → m.packet 0 ≡ first_byte v
      → m.packet 1 ≡ low v.dx
      → IsPartial extra 2 t es m
      → let m' = receive_byte h (process_byte h) now (low v.dy) m in
        IsStreaming extra m'
        × (inputs m'.effects ≡ es ++ inputs (standard_report (press extra v) ++ sync ∷ []))
  third-IsStreaming now t extra v es m late small e p₀ p₁ s =
      let packet = update m.packet m.pktcnt (low v.dy) in
      let full = update packet 0 (bit_or (packet 0) m.extra_buttons) in
      rw
        (
          receive_byte-served h (process_byte h) now (low v.dy) m s.active s.no_idle_limit
              (inr (rw s.timed late)) (ground (arith, first_byte-lt v)),
          served-last now (low v.dy) m (omega arith) (omega arith) s.plain,
          report_standard_packet-press v extra full small e (ground arith) (ground arith)
              (ground arith),
        )
        (
          record {
            active = s.active;
            between = refl;
            size = s.size;
            no_idle_limit = s.no_idle_limit;
            plain = s.plain;
            pressed = s.pressed;
          },
          rw (inputs-append, inputs-wakeup m, s.quiet),
        )

  -- The three bytes of one movement: the state stays ready for the next, and the input layer gets
  -- the report.
  pub receive_bytes-arriving :
      (linux : IsLinux h) (extra : ℕ) (a : Arrival) (m : Psmouse P)
      → h.hz < 2 ^ 63
      → extra < 8
      → IsOnTime h a
      → IsStreaming extra m
      → let m' = receive_bytes h (process_byte h) (arriving a) m in
        IsStreaming extra m'
        × (inputs m'.effects
            ≡ inputs m.effects ++ inputs (standard_report (press extra a.movement) ++ sync ∷ []))
  unfolding receive_bytes
  receive_bytes-arriving linux extra a m z e o s =
      let v = a.movement in
      let t₁ = u64 (a.start + a.gap₁) in
      let m₁ = receive_byte h (process_byte h) (u64 a.start) (first_byte v) m in
      let m₂ = receive_byte h (process_byte h) t₁ (low v.dx) m₁ in
      let (s₁, p₁) = first-IsPartial (u64 a.start) (first_byte v) extra m (first_byte-lt v) s in
      let (s₂, p₂, q₂) =
        second-IsPartial t₁ (u64 a.start) (low v.dx) extra (inputs m.effects) m₁
          (on_time h a.start a.gap₁ linux z o.1) (rw p₁ (first_byte-lt v)) s₁ in
      third-IsStreaming (u64 (a.start + a.gap₁ + a.gap₂)) t₁ extra v (inputs m.effects) m₂
        (on_time h (a.start + a.gap₁) a.gap₂ linux z o.2) o.0 e (p₂ ∙ p₁) q₂ s₂
