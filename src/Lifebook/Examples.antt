-- ===== src/Lifebook/Examples.antt =====
-- Touches of a LifeBook and movements of its stick, bytes that begin neither, and the theorems
-- about them.
use debugging.Common.{ℕ, ◌≡◌, true, false, List, [], ◌∷◌, refl, arith}
use debugging.Common.Int.{ℤ, pos}
use debugging.Kernel.{linux_headers, linux_headers-IsLinux}
use debugging.Kernel.Observe.{deeds, reconnects}
use debugging.Psmouse.{Psmouse, PsmouseType, State}
use debugging.Psmouse.Sample.{sample}
use debugging.Psmouse.Receive.{receive_bytes}
use debugging.Psmouse.Receive.Framed.{IsReady, arrivals}
use debugging.Lifebook.{Data, process_byte}
use debugging.Lifebook.Framing.{frame}
use debugging.Lifebook.Encoding.{Event}
use debugging.Psmouse.Receive.Sync.{receive_bytes-reject}
use debugging.Lifebook.Sync.{process_byte-rejects}
use debugging.Lifebook.Stream.{Sent, arriving, told_all, receive_bytes-events}

abbrev screen : Psmouse Data
screen = sample (record { has_dev2 = true }) PsmouseType.lifebook 3

-- A touch in six bytes, and a movement in three.
abbrev events : List Sent
events =
    record {
      event = Event.touch (record { left = false; right = false; down = true; x = 3000; y = 17 });
      start = 3;
      gap = λ k. 1;
    }
    ∷ record {
      event =
          Event.movement
            (record { left = true; right = false; middle = false; dx = pos 4; dy = ℤ.negsuc 1 });
      start = 30;
      gap = λ k. 2;
    }
    ∷ []

receive_bytes-events_example :
    let m' =
      receive_bytes linux_headers
        (process_byte true)
        (arrivals (frame true) (arriving true events))
        screen in
    IsReady (frame true) m'
    × (m'.private ≡ screen.private)
    × (deeds m'.effects ≡ told_all true screen.private events)
receive_bytes-events_example =
    receive_bytes-events linux_headers linux_headers-IsLinux (omega arith) true events screen
      (
        ((omega arith, omega arith), λ k. omega arith),
        (((omega arith, omega arith), λ k. omega arith), tt),
      )
      (record { active = refl; between = refl; sized = refl; no_idle_limit = refl })

-- Two bytes that begin neither a touch nor a movement, at a limit of two bad packets.
abbrev two_bad : List (ℕ × ℕ)
two_bad = (1, 0x11) ∷ (2, 0x12) ∷ []

abbrev failing_screen : Psmouse Data
failing_screen = record screen { resetafter = 2 }

receive_bytes-reject_example :
    let m' = receive_bytes linux_headers (process_byte true) two_bad failing_screen in
    (m'.state ≡ State.ignore) × (reconnects m'.effects ≡ 1)
receive_bytes-reject_example =
    receive_bytes-reject linux_headers (process_byte true) two_bad 1 failing_screen
      (
        (omega arith, process_byte-rejects 0x11 refl refl),
        ((omega arith, process_byte-rejects 0x12 refl refl), tt),
      )
      (record {
        active = refl;
        between = refl;
        no_idle_limit = refl;
        limit = refl;
        word = omega arith;
      })
