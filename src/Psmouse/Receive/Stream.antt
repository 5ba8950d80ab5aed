-- ===== src/Psmouse/Receive/Stream.antt =====
-- A stream of packets of a plain mouse, through `psmouse_receive_byte`, against the movements that
-- the device reported.
use debugging.Common.{
  ℕ, ◌^◌, ◌<◌, ◌≡◌, List, [], ◌∷◌, ◌++◌, append_assoc, append-nil, ◌∙◌, sym, refl, All,
}
use debugging.Kernel.{Headers, IsLinux, Input}
use debugging.Kernel.Observe.{inputs}
use debugging.Psmouse.{Psmouse, Handler}
use debugging.Psmouse.Process.{process_byte}
use debugging.Psmouse.Report.{sync}
use debugging.Psmouse.Report.Packets.{press, standard_report}
use debugging.Psmouse.Receive.{receive_byte, receive_bytes}
use debugging.Psmouse.Receive.Packet.{
  Arrival, arriving, IsOnTime, IsStreaming, receive_bytes-arriving,
}

abbrev pub arrivals : List Arrival → List (ℕ × ℕ)
arrivals [] = []
arrivals (a ∷ rest) = arriving a ++ arrivals rest

-- What the input layer gets for the stream.
abbrev pub expected : ℕ → List Arrival → List Input
expected extra [] = []
expected extra (a ∷ rest) =
    inputs (standard_report (press extra a.movement) ++ sync ∷ []) ++ expected extra rest

module _ {P : Type 0} (h : Headers) where
  pub receive_bytes-append :
      (handler : Handler P) (xs ys : List (ℕ × ℕ)) (m : Psmouse P)
      → receive_bytes h handler (xs ++ ys) m
        ≡ receive_bytes h handler ys (receive_bytes h handler xs m)
  unfolding receive_bytes
  receive_bytes-append handler [] ys m = refl
  receive_bytes-append handler ((now, byte) ∷ xs) ys m =
      receive_bytes-append handler xs ys (receive_byte h handler now byte m)

  -- An activated plain mouse (bare PS/2 or a TrackPoint) turns the bytes of any movements within 255
  -- counts, with gaps of at most half a second inside each packet, into exactly their reports in
  -- order, the extra buttons added, and is ready for the next packet.
  pub receive_bytes-arrivals :
      (linux : IsLinux h) (extra : ℕ) (stream : List Arrival) (m : Psmouse P)
      → h.hz < 2 ^ 63
      → extra < 8
      → All (IsOnTime h) stream
      → IsStreaming extra m
      → let m' = receive_bytes h (process_byte h) (arrivals stream) m in
        IsStreaming extra m' × (inputs m'.effects ≡ inputs m.effects ++ expected extra stream)
  receive_bytes-arrivals linux extra [] m z e o s =
      unfold receive_bytes in (s, sym (append-nil (inputs m.effects)))
  receive_bytes-arrivals linux extra (a ∷ rest) m z e o s =
      let (s₁, e₁) = receive_bytes-arriving h linux extra a m z e o.0 s in
      let (s₂, e₂) =
        receive_bytes-arrivals linux extra rest (receive_bytes h (process_byte h) (arriving a) m) z
          e o.1 s₁ in
      rw (receive_bytes-append (process_byte h) (arriving a) (arrivals rest) m)
        (s₂, e₂ ∙ rw e₁ (append_assoc (inputs m.effects) _ (expected extra rest)))
