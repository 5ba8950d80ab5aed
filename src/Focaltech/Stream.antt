-- ===== src/Focaltech/Stream.antt =====
-- A stream of packets of a FocalTech touchpad, byte by byte through `psmouse_receive_byte`.
use debugging.Common.{◌^◌, ◌<◌, ◌≡◌, List, [], ◌∷◌, ◌++◌, ◌∙◌, sym, refl, ap, All}
use debugging.Kernel.{Headers, IsLinux, Input, Bytes}
use debugging.Kernel.Observe.{inputs, inputs-append, inputs-deeds, inputs-after, deeds}
use debugging.Psmouse.{Psmouse}
use debugging.Psmouse.Receive.{receive_bytes}
use debugging.Psmouse.Receive.Framed.{
  Arrival, IsReady, IsOnTime, arrivals, stepped, reported, receive_timed, receive_timed-timeless,
}
use debugging.Psmouse.Receive.Framed.Packets.{receive_timed-packets}
use debugging.Focaltech.{Data, process_byte, process_packet, process_packets, report_state}
use debugging.Focaltech.Filling.{frame, process_byte-IsFramed}

abbrev pub packets : List Arrival → List Bytes
packets [] = []
packets (a ∷ rest) = a.packet ∷ packets rest

-- The reports of a stream from the data on.
abbrev pub reports : List Arrival → Data → List Input
reports [] s = []
reports (a ∷ rest) s =
    inputs (report_state (process_packet a.packet s)) ++ reports rest (process_packet a.packet s)

stepped_lem :
    (stream : List Arrival) (s : Data) → stepped frame stream s ≡ process_packets (packets stream) s
unfolding process_packets
stepped_lem [] s = refl
stepped_lem (a ∷ rest) s = stepped_lem rest (process_packet a.packet s)

inputs-reported :
    (stream : List Arrival) (s : Data) → inputs (reported frame stream s) ≡ reports stream s
inputs-reported [] s = refl
inputs-reported (a ∷ rest) s =
    let s' = process_packet a.packet s in
    inputs-append (deeds (report_state s')) (reported frame rest s')
    ∙ ap (λ l. l ++ inputs (reported frame rest s')) (inputs-deeds (report_state s'))
    ∙ ap (λ l. inputs (report_state s') ++ l) (inputs-reported rest s')

-- A stream of packets, none of which lingers for more than half a second or begins like the
-- announcement of a device, goes through `psmouse_receive_byte` to exactly the packets of the
-- touchpad: its data are what these make of them, each packet is followed by its report and
-- nothing else is reported, and the mouse is ready for the next packet.
pub receive_bytes-packets :
    (h : Headers) (linux : IsLinux h) (z : h.hz < 2 ^ 63) (stream : List Arrival) (m : Psmouse Data)
    → All (IsOnTime h frame) stream
    → IsReady frame m
    → let m' = receive_bytes h process_byte (arrivals frame stream) m in
      IsReady frame m'
      × (m'.private ≡ process_packets (packets stream) m.private)
      × (inputs m'.effects ≡ inputs m.effects ++ reports stream m.private)
receive_bytes-packets h linux z stream m o r =
    let (r', s', e) =
      receive_timed-packets h linux z (λ now. process_byte) frame process_byte-IsFramed stream m o
        r in
    rw (sym (receive_timed-timeless h process_byte (arrivals frame stream) m)) (
      r',
      s' ∙ stepped_lem stream m.private,
      inputs-after (receive_timed h (λ now. process_byte) (arrivals frame stream) m).effects
            m.effects (reported frame stream m.private) e
          ∙ ap (λ l. inputs m.effects ++ l) (inputs-reported stream m.private),
    )
