-- ===== src/Byd/Examples.antt =====
-- Strokes and touches of a BYD touchpad, and the theorems about it at them.
use debugging.Common.{◌≡◌, ◌⊎◌, inr, true, false, List, [], ◌∷◌, some, refl, arith}
use debugging.Common.Int.{ℤ, pos}
use debugging.Kernel.{linux_headers, linux_headers-IsLinux}
use debugging.Kernel.Observe.{inputs}
use debugging.Psmouse.{Psmouse, PsmouseType}
use debugging.Psmouse.Sample.{sample}
use debugging.Psmouse.Receive.{receive_byte}
use debugging.Psmouse.Receive.Framed.{IsReady, arrivals, receive_timed}
use debugging.Byd.{Data, process_byte}
use debugging.Byd.Setup.{zeroed}
use debugging.Byd.Framing.{frame}
use debugging.Byd.Stroke.{Movement, arriving, positions, receive_timed-stroke}
use debugging.Byd.Touch.{Step, Run, Lifts, deadline, Run-Lifts}

-- A finger in the middle of the pad.
abbrev placed : Data
placed = record zeroed { abs_x = 5632; abs_y = 3328; touch = true; timer = some 16 }

abbrev pad : Psmouse Data
pad = sample placed PsmouseType.byd 4

-- To the right and down, then further with the left button.
abbrev stroke : List Movement
stroke =
    record { left = false; right = false; dx = pos 10; dy = ℤ.negsuc 4; start = 5; gap = λ k. 1 }
    ∷ record { left = true; right = false; dx = pos 3; dy = pos 0; start = 20; gap = λ k. 2 }
    ∷ []

receive_timed-stroke_example :
    let m' =
      receive_timed linux_headers
        (process_byte linux_headers)
        (arrivals (frame linux_headers) (arriving stroke))
        pad in
    IsReady (frame linux_headers) m' × (inputs m'.effects ≡ positions stroke (pos 5632) (pos 3328))
receive_timed-stroke_example =
    receive_timed-stroke linux_headers linux_headers-IsLinux (omega arith) stroke (pos 5632)
      (pos 3328) pad
      (
        (omega arith, omega arith, λ k. omega arith),
        ((omega arith, omega arith, λ k. omega arith), tt),
      )
      (omega arith) (omega arith)
      (record { active = refl; between = refl; sized = refl; no_idle_limit = refl }) refl refl

-- The first byte of a packet comes.
abbrev touched : Psmouse Data
touched = receive_byte linux_headers (process_byte linux_headers 7) 7 8 pad

Run-Lifts_example :
    (touched.private.touch ≡ false)
    ⊎ ((touched.private.timer ≡ some (deadline linux_headers touched.private))
        × ((m : Psmouse Data) × Step linux_headers touched m × Lifts touched m))
Run-Lifts_example =
    Run-Lifts linux_headers pad touched
      (Run.more pad touched touched (Step.byte 7 8 pad) (Run.done touched)) (inr refl)
