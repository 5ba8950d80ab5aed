-- ===== src/Psmouse/Examples/Stream.antt =====
-- Bytes through `psmouse_receive_byte`: a run, and the theorems at concrete streams.
use debugging.Common.{ℕ, ◌≡◌, true, false, List, [], ◌∷◌, inr, refl, arith, ◌++◌}
use debugging.Common.Int.{pos}
use debugging.Kernel.{bytes, linux_headers, linux_headers-IsLinux, Input, Button, Axis}
use debugging.Kernel.Observe.{inputs}
use debugging.Psmouse.Report.Packets.{report_standard_packet-press, standard_report, press}
use debugging.Psmouse.Report.{
  report_standard_packet, report_standard_buttons, report_standard_motion, sync,
}
use debugging.Psmouse.Process.{process_byte}
use debugging.Psmouse.Process.Laws.{process_byte-IsHandler}
use debugging.Psmouse.Receive.{
  receive_bytes, pre_receive_byte, Disposition, receive_byte, stored_byte, finish_byte, handle_byte,
}
use debugging.Psmouse.Receive.Packet.{IsStreaming}
use debugging.Psmouse.Receive.Stream.{receive_bytes-arrivals, arrivals, expected}
use debugging.Psmouse.Receive.Invariant.{receive_bytes-IsSafe, IsBounded, IsSafe, IsHandler}
use debugging.Psmouse.Receive.Oob.{pre_receive_byte-pair, out_of_band}
use debugging.Psmouse.Examples.{mouse, movement, arrival}

stream_run :
    inputs
      (receive_bytes linux_headers
        (process_byte linux_headers)
        (arrivals (arrival ∷ []))
        mouse).effects
    ≡ Input.key Button.left true
      ∷ Input.key Button.middle false
      ∷ Input.key Button.right false
      ∷ Input.rel Axis.x (pos 5)
      ∷ Input.rel Axis.y (pos 3)
      ∷ Input.sync
      ∷ []
unfolding receive_bytes receive_byte stored_byte finish_byte handle_byte process_byte
    report_standard_packet report_standard_buttons report_standard_motion
stream_run = refl

mouse-IsStreaming : IsStreaming 0 mouse
mouse-IsStreaming = record {
  active = refl;
  between = refl;
  size = refl;
  no_idle_limit = refl;
  plain = inr refl;
  pressed = refl;
}

receive_bytes-arrivals_example :
    let m' =
      receive_bytes linux_headers
        (process_byte linux_headers)
        (arrivals (arrival ∷ arrival ∷ []))
        mouse in
    IsStreaming 0 m' × (inputs m'.effects ≡ expected 0 (arrival ∷ arrival ∷ []))
receive_bytes-arrivals_example =
    receive_bytes-arrivals linux_headers linux_headers-IsLinux 0 (arrival ∷ arrival ∷ []) mouse
      (omega arith) (omega arith) (omega arith) mouse-IsStreaming

-- A byte that gets lost in the middle, an announcement, and a byte out of turn.
abbrev noise : List (ℕ × ℕ)
noise = (1, 0x09) ∷ (900, 0xaa) ∷ (901, 0x00) ∷ (902, 0x77) ∷ []

mouse-IsBounded : IsBounded mouse
mouse-IsBounded = record { counted = omega arith; long = omega arith; fits = omega arith }

receive_bytes-IsSafe_example :
    IsSafe mouse (receive_bytes linux_headers (process_byte linux_headers) noise mouse)
receive_bytes-IsSafe_example =
    receive_bytes-IsSafe linux_headers (process_byte linux_headers)
      (process_byte-IsHandler linux_headers) noise mouse mouse-IsBounded

process_byte-IsHandler_example : IsHandler (process_byte {P = ℕ} linux_headers)
process_byte-IsHandler_example = process_byte-IsHandler linux_headers

report_standard_packet-press_example :
    report_standard_packet (bytes (0x2d ∷ 5 ∷ 0xfd ∷ [])) ≡ standard_report (press 4 movement)
report_standard_packet-press_example =
    report_standard_packet-press movement 4 (bytes (0x2d ∷ 5 ∷ 0xfd ∷ [])) (omega arith)
      (omega arith) refl refl refl

pre_receive_byte-pair_example :
    let (m₁, d₁) = pre_receive_byte 1 out_of_band mouse in
    let (m₂, d₂) = pre_receive_byte 3 out_of_band m₁ in
    (d₁ ≡ Disposition.ignore)
    × (d₂ ≡ Disposition.ignore)
    × (m₂ ≡ record mouse { extra_buttons = 3; effects = report_standard_buttons 3 ++ sync ∷ [] })
pre_receive_byte-pair_example = pre_receive_byte-pair 1 3 mouse (λ e. cc) refl (omega arith)
