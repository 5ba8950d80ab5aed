-- ===== src/Psmouse/Receive/Framed/Packets.antt =====
-- A stream of packets of a handler with a frame, through `psmouse_receive_byte`.
use debugging.Common.{
  ℕ, zero, suc, ◌+◌, ◌^◌, ◌<◌, ◌≡◌, List, [], ◌∷◌, ◌++◌, ◌∙◌, sym, refl, arith, ap, All,
  append_assoc, append-nil,
}
use mathlib.Core.Path.{subst}
use debugging.Kernel.{Headers, IsLinux, u64}
use debugging.Kernel.Observe.{deeds}
use debugging.Psmouse.{Psmouse, Handler}
use debugging.Psmouse.Receive.Framed.{
  Frame, IsFramed, Arrival, time, bytes_from, receive_timed, receive_timed-append, arrivals,
  stepped, reported, IsReady, IsOnTime,
}
use debugging.Psmouse.Receive.Framed.Filling.{IsFilling, receive_timed-IsFilling, receive_byte-last}

module _ {P : Type 0} where
  module _ (h : Headers) (linux : IsLinux h) (z : h.hz < 2 ^ 63) (handler : ℕ → Handler P)
      (f : Frame P) (framed : IsFramed handler f) where
    start-IsFilling :
        (a : Arrival) (m : Psmouse P) → IsReady f m → IsFilling f a 0 m.private (deeds m.effects) m
    start-IsFilling a m r = record {
      active = r.active;
      counted = r.between;
      sized = r.sized;
      no_idle_limit = r.no_idle_limit;
      timed = λ j e. absurd (omega arith);
      stored = λ i below. absurd (omega arith);
      kept = refl;
      quiet = refl;
    }

    bytes_from-snoc :
        (a : Arrival) (count k n : ℕ)
        → n ≡ k + count
        → bytes_from a (suc count) k ≡ bytes_from a count k ++ (u64 (time a n), a.packet n) ∷ []
    bytes_from-snoc a zero k n e = let same : n ≡ k = omega arith in rw (sym same) refl
    bytes_from-snoc a (suc count) k n e =
        ap (λ l. (u64 (time a k), a.packet k) ∷ l) (bytes_from-snoc a count (suc k) n (omega arith))

    -- One packet.
    receive_timed-packet :
        (a : Arrival) (m : Psmouse P)
        → IsOnTime h f a
        → IsReady f m
        → let now = u64 (time a (f.last a.packet)) in
          let m' = receive_timed h handler (bytes_from a (suc (f.last a.packet)) 0) m in
          IsReady f m'
          × (m'.private ≡ f.step now a.packet m.private)
          × (deeds m'.effects ≡ deeds m.effects ++ deeds (f.report now a.packet m.private))
    receive_timed-packet a m o r =
        let (k, e, p) =
          receive_timed-IsFilling h linux z handler f framed a (f.last a.packet) 0 m.private
            (deeds m.effects) m (omega arith) o (start-IsFilling a m r) in
        let before = receive_timed h handler (bytes_from a (f.last a.packet) 0) m in
        let at : k ≡ (f.last a.packet) = omega arith in
        let at_last = subst (λ n. IsFilling f a n m.private (deeds m.effects) before) at p in
        rw
          (
            bytes_from-snoc a (f.last a.packet) 0 (f.last a.packet) (omega arith),
            receive_timed-append h handler (bytes_from a (f.last a.packet) 0)
                ((u64 (time a (f.last a.packet)), a.packet (f.last a.packet)) ∷ []) m,
          )
          (unfold receive_timed in
            (receive_byte-last h linux z handler f framed a m.private (deeds m.effects) before o
              at_last))

    -- A stream of packets goes through `psmouse_receive_byte` to exactly the steps and the reports
    -- of its packets.
    pub receive_timed-packets :
        (stream : List Arrival) (m : Psmouse P)
        → All (IsOnTime h f) stream
        → IsReady f m
        → let m' = receive_timed h handler (arrivals f stream) m in
          IsReady f m'
          × (m'.private ≡ stepped f stream m.private)
          × (deeds m'.effects ≡ deeds m.effects ++ reported f stream m.private)
    receive_timed-packets [] m o r =
        unfold receive_timed in (r, refl, sym (append-nil (deeds m.effects)))
    receive_timed-packets (a ∷ rest) m o r =
        let now = u64 (time a (f.last a.packet)) in
        let m₁ = receive_timed h handler (bytes_from a (suc (f.last a.packet)) 0) m in
        let (r₁, s₁, e₁) = receive_timed-packet a m o.0 r in
        let (r₂, s₂, e₂) = receive_timed-packets rest m₁ o.1 r₁ in
        rw
          (receive_timed-append h handler (bytes_from a (suc (f.last a.packet)) 0) (arrivals f rest)
            m)
          (
            r₂,
            s₂ ∙ ap (stepped f rest) s₁,
            e₂
                ∙ ap (λ s. deeds m₁.effects ++ reported f rest s) s₁
                ∙ ap (λ l. l ++ reported f rest (f.step now a.packet m.private)) e₁
                ∙ append_assoc (deeds m.effects) _
                    (reported f rest (f.step now a.packet m.private)),
          )
