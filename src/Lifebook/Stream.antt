-- ===== src/Lifebook/Stream.antt =====
-- The touches and movements of a LifeBook, from its packets through `psmouse_receive_byte` to the
-- reports.
use debugging.Common.{
  ℕ, ◌/◌, ◌^◌, ◌≤◌, ◌<◌, ◌≡◌, Bool, List, [], ◌∷◌, ◌++◌, ◌∙◌, sym, refl, ap, All, Bool-cases, inl,
  inr,
}
use debugging.Kernel.{Headers, IsLinux, Effect}
use debugging.Kernel.Observe.{deeds}
use debugging.Psmouse.{Psmouse}
use debugging.Psmouse.Receive.{receive_bytes}
use debugging.Psmouse.Receive.Framed.{
  Arrival, IsReady, IsOnTime, arrivals, stepped, reported, receive_timed-timeless,
}
use debugging.Psmouse.Receive.Framed.Packets.{receive_timed-packets}
use debugging.Lifebook.{Data, process_byte}
use debugging.Lifebook.Framing.{frame, process_byte-IsFramed}
use debugging.Lifebook.Encoding.{Event, IsFit, encode, told, encode-accepted, packet_report-encode}

-- An event with the times of its bytes.
pub record Sent : Type 0 where
  pub event : Event
  pub start : ℕ
  pub gap : ℕ → ℕ

abbrev pub arriving : Bool → List Sent → List Arrival
arriving six [] = []
arriving six (e ∷ es) =
    record { packet = encode six e.event; start = e.start; gap = e.gap } ∷ arriving six es

abbrev pub told_all : Bool → Data → List Sent → List Effect
told_all six s [] = []
told_all six s (e ∷ es) = told six s e.event ++ told_all six s es

-- An event that fits its packet, with no gap above half a second.
abbrev pub IsSentWell : Headers → Bool → Sent → Type 0
IsSentWell h six e = IsFit six e.event × ((k : ℕ) → e.gap k ≤ h.hz / 2)

deeds-told : (six : Bool) (s : Data) (e : Event) → deeds (told six s e) ≡ told six s e
deeds-told six s (Event.touch t) = elim (Bool-cases s.has_dev2) [
  | inl on ↦ rw on refl
  | inr off ↦ rw off refl
]
deeds-told six s (Event.movement v) = elim (Bool-cases s.has_dev2) [
  | inl on ↦ rw on refl
  | inr off ↦ rw off refl
]

reported-told :
    (h : Headers) (six : Bool) (s : Data) (es : List Sent)
    → All (IsSentWell h six) es
    → reported (frame six) (arriving six es) s ≡ told_all six s es
reported-told h six s [] fit = refl
reported-told h six s (e ∷ es) fit =
    rw
      (
        packet_report-encode six e.event s fit.0.0,
        deeds-told six s e.event,
        reported-told h six s es fit.1,
      )
      refl

stepped-same : (six : Bool) (s : Data) (stream : List Arrival) → stepped (frame six) stream s ≡ s
stepped-same six s [] = refl
stepped-same six s (a ∷ rest) = stepped-same six s rest

arriving-IsOnTime :
    (h : Headers) (six : Bool) (es : List Sent)
    → All (IsSentWell h six) es
    → All (IsOnTime h (frame six)) (arriving six es)
arriving-IsOnTime h six [] fit = tt
arriving-IsOnTime h six (e ∷ es) fit =
    let (accepted, plain) = encode-accepted six e.event fit.0.0 in
    ((fit.0.1, plain, accepted), arriving-IsOnTime h six es fit.1)

-- Touches and movements of the stick in any order, with either format of the touches, whose bytes
-- come without a gap above half a second, go through `psmouse_receive_byte` to exactly their
-- reports: a touch to the screen with y from the top, and with its buttons to the relative device
-- if there is one; a movement to the relative device only. The mouse is ready for the next packet,
-- although a packet of six bytes is longer than the size that stands in it.
pub receive_bytes-events :
    (h : Headers) (linux : IsLinux h) (z : h.hz < 2 ^ 63) (six : Bool) (es : List Sent)
    (m : Psmouse Data)
    → All (IsSentWell h six) es
    → IsReady (frame six) m
    → let m' = receive_bytes h (process_byte six) (arrivals (frame six) (arriving six es)) m in
      IsReady (frame six) m'
      × (m'.private ≡ m.private)
      × (deeds m'.effects ≡ deeds m.effects ++ told_all six m.private es)
receive_bytes-events h linux z six es m fit r =
    let stream = arriving six es in
    let (r', s', e) =
      receive_timed-packets h linux z (λ now. process_byte six) (frame six)
        (process_byte-IsFramed six) stream m (arriving-IsOnTime h six es fit) r in
    rw (sym (receive_timed-timeless h (process_byte six) (arrivals (frame six) stream) m)) (
      r',
      s' ∙ stepped-same six m.private stream,
      e ∙ ap (λ l. deeds m.effects ++ l) (reported-told h six m.private es fit),
    )
