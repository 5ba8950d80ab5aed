-- ===== src/Psmouse/Receive/Framed/Filling.antt =====
-- One packet of a handler with a frame, byte by byte through `psmouse_receive_byte`.
use debugging.Common.{
  ℕ, zero, suc, ◌+◌, ◌^◌, ◌≤◌, ◌<◌, ◌≡◌, inl, inr, false, List, [], ◌∷◌, ◌++◌, ◌∙◌, sym, refl,
  arith, ap, ◌==◌, Bool-cases, append-nil,
}
use debugging.Kernel.{Headers, IsLinux, Effect, u64, wakeup}
use debugging.Kernel.Observe.{deeds, deeds-append}
use debugging.Psmouse.{Psmouse, State, Handler, Ret, ret_bat, emit}
use debugging.Psmouse.Receive.{handle_byte, store, receive_byte}
use debugging.Psmouse.Receive.Step.{receive_byte-served, IsTimely}
use debugging.Psmouse.Receive.Packet.{on_time, handle_byte-full}
use debugging.Psmouse.Receive.Framed.{
  Frame, Holds, IsFramed, Arrival, time, bytes_from, receive_timed, IsReady, IsOnTime,
}

module _ {P : Type 0} where
  -- The mouse with the first k bytes of a packet stored.
  pub record IsFilling (f : Frame P) (a : Arrival) (k : ℕ) (s : P) (es : List Effect)
      (m : Psmouse P) : Type 0 where
    pub active : m.state ≡ State.activated
    pub counted : m.pktcnt ≡ k
    pub sized : m.pktsize ≡ f.pktsize
    pub no_idle_limit : m.resync_time ≡ 0
    pub timed : (j : ℕ) → k ≡ suc j → m.last ≡ u64 (time a j)
    pub stored : Holds m a.packet k
    pub kept : m.private ≡ s
    pub quiet : deeds m.effects ≡ es

  -- The bytes stored with one more.
  filled :
      (f : Frame P) (a : Arrival) (k : ℕ) (s : P) (es : List Effect) (m : Psmouse P)
      → IsFilling f a k s es m
      → (i : ℕ) → i < suc k
      → (store (a.packet k) m).packet i ≡ a.packet i
  filled f a k s es m p i below = elim (Bool-cases (i == k)) [
    | inl here ↦ let same : i ≡ k = ground arith in rw (p.counted, here) (ap a.packet (sym same))
    | inr before ↦ rw (p.counted, before) (p.stored i (ground arith))
  ]

  handle_byte-asks :
      (handler : Handler P) (now : ℕ) (m : Psmouse P)
      → handler m ≡ (m, Ret.good_data)
      → (handle_byte handler now m).0 ≡ m
  unfolding handle_byte
  handle_byte-asks handler now m e = rw e

  deeds-wakeup : (m : Psmouse P) → deeds (m.effects ++ wakeup ∷ []) ≡ deeds m.effects
  deeds-wakeup m = deeds-append m.effects (wakeup ∷ []) ∙ append-nil (deeds m.effects)

  module _ (h : Headers) (linux : IsLinux h) (z : h.hz < 2 ^ 63) (handler : ℕ → Handler P)
      (f : Frame P) (framed : IsFramed handler f) where
    -- The byte k comes in time.
    filling-IsTimely :
        (a : Arrival) (k : ℕ) (s : P) (es : List Effect) (m : Psmouse P)
        → IsOnTime h f a
        → IsFilling f a k s es m
        → IsTimely h (u64 (time a k)) m
    filling-IsTimely a zero s es m o p = inl p.counted
    filling-IsTimely a (suc k) s es m o p =
        inr (rw (p.timed k refl) (on_time h (time a k) (a.gap (suc k)) linux z (o.0 (suc k))))

    first-plain :
        (a : Arrival) (k : ℕ) (s : P) (es : List Effect) (m : Psmouse P)
        → IsOnTime h f a
        → IsFilling f a k s es m
        → ((store (a.packet k) m).packet 0 == ret_bat) ≡ false
    first-plain a zero s es m o p = ground (arith, p.counted, o.1)
    first-plain a (suc k) s es m o p = ground (arith, p.counted, o.1, p.stored 0 (omega arith))

    -- The mouse as the handler sees it.
    abbrev begun : Arrival → ℕ → Psmouse P → Psmouse P
    begun a k m = record (store (a.packet k) (emit m (wakeup ∷ []))) { last = u64 (time a k) }

    pub receive_byte-IsFilling :
        (a : Arrival) (k : ℕ) (s : P) (es : List Effect) (m : Psmouse P)
        → k < (f.last a.packet)
        → IsOnTime h f a
        → IsFilling f a k s es m
        → IsFilling f a
            (suc k)
            s
            es
            (receive_byte h (handler (u64 (time a k))) (u64 (time a k)) (a.packet k) m)
    receive_byte-IsFilling a k s es m below o p =
        let now = u64 (time a k) in
        let asks =
          framed.asks now k a.packet (begun a k m) o.2 below
            (omega (arith, p.counted, framed.fits a.packet)) p.sized (filled f a k s es m p) in
        rw
          (
            receive_byte-served h (handler now) now (a.packet k) m p.active p.no_idle_limit
                (filling-IsTimely a k s es m o p) (first-plain a k s es m o p),
            handle_byte-asks (handler now) now (begun a k m) asks,
          )
          (record {
            active = p.active;
            counted = omega (arith, p.counted, framed.fits a.packet);
            sized = p.sized;
            no_idle_limit = p.no_idle_limit;
            timed = λ j e. ap (λ n. u64 (time a n)) (omega arith);
            stored = λ i below. filled f a k s es m p i below;
            kept = p.kept;
            quiet = deeds-wakeup m ∙ p.quiet;
          })

    pub receive_timed-IsFilling :
        (a : Arrival) (count k : ℕ) (s : P) (es : List Effect) (m : Psmouse P)
        → k + count ≤ (f.last a.packet)
        → IsOnTime h f a
        → IsFilling f a k s es m
        → (k' : ℕ) × (k' ≡ k + count)
          × IsFilling f a k' s es (receive_timed h handler (bytes_from a count k) m)
    unfolding receive_timed
    receive_timed-IsFilling a zero k s es m below o p = (k, omega arith, p)
    receive_timed-IsFilling a (suc count) k s es m below o p =
        let now = u64 (time a k) in
        let next = receive_byte h (handler now) now (a.packet k) m in
        let (k', e, p') =
          receive_timed-IsFilling a count (suc k) s es next (omega arith) o
            (receive_byte-IsFilling a k s es m (omega arith) o p) in
        (k', omega arith, p')

    -- The last byte.
    pub receive_byte-last :
        (a : Arrival) (s : P) (es : List Effect) (m : Psmouse P)
        → IsOnTime h f a
        → IsFilling f a (f.last a.packet) s es m
        → let now = u64 (time a (f.last a.packet)) in
          let m' = receive_byte h (handler now) now (a.packet (f.last a.packet)) m in
          IsReady f m'
          × (m'.private ≡ f.step now a.packet s)
          × (deeds m'.effects ≡ es ++ deeds (f.report now a.packet s))
    receive_byte-last a s es m o p =
        let now = u64 (time a (f.last a.packet)) in
        let (q, full) =
          framed.full now a.packet (begun a (f.last a.packet) m) o.2
            (omega (arith, p.counted, framed.fits a.packet)) p.sized
            (filled f a (f.last a.packet) s es m p) in
        rw
          (
            receive_byte-served h (handler now) now (a.packet (f.last a.packet)) m p.active
                p.no_idle_limit (filling-IsTimely a (f.last a.packet) s es m o p)
                (first-plain a (f.last a.packet) s es m o p),
            handle_byte-full (handler now) now (begun a (f.last a.packet) m) full,
            p.kept,
          )
          (
            record {
              active = p.active;
              between = refl;
              sized = p.sized;
              no_idle_limit = p.no_idle_limit;
            },
            refl,
            deeds-append (m.effects ++ wakeup ∷ []) (f.report now a.packet s)
                ∙ ap (λ l. l ++ deeds (f.report now a.packet s)) (deeds-wakeup m ∙ p.quiet),
          )
