-- ===== src/Sermouse/Examples.antt =====
-- Two packets of a Mouse Systems mouse, and a byte of a Microsoft mouse.
use debugging.Common.{◌≡◌, true, false, [], ◌∷◌, refl}
use debugging.Common.Int.{pos, neg, ◌+ℤ◌}
use debugging.Kernel.{Axis, Input, Button}
use debugging.Sermouse.{Sermouse, SerioType, process_ms, ms_report}
use debugging.Sermouse.Stream.{
  Packet, packet_bytes, processed, total, sum_x, sum_y, processed-total,
}

abbrev idle : Sermouse
idle = record { buf = λ i. pos 3; count = 0; type = SerioType.msc; last = 0; events = [] }

-- Odd movements, one of them to the left, with the left button.
abbrev packet : Packet
packet = record { buttons = 0x83; x₁ = 5; y₁ = 7; x₂ = 0xfd; y₂ = 9 }

processed-total_example :
    let s' = processed (packet_bytes (packet ∷ packet ∷ [])) idle in
    (s'.count ≡ 0)
    × (total Axis.x s'.events ≡ pos 0 +ℤ sum_x (packet ∷ packet ∷ []))
    × (total Axis.y s'.events ≡ pos 0 +ℤ neg (sum_y (packet ∷ packet ∷ [])))
processed-total_example = processed-total (packet ∷ packet ∷ []) idle refl (refl, (refl, tt))

processed-places : (sum_x (packet ∷ packet ∷ []) ≡ pos 4) × (sum_y (packet ∷ packet ∷ []) ≡ pos 32)
processed-places = (refl, refl)

-- Both buttons.
process_ms-first :
    (process_ms false 0x70 (record idle { type = SerioType.ms })).events
    ≡ Input.key Button.left true ∷ Input.key Button.right true ∷ Input.sync ∷ []
unfolding process_ms ms_report
process_ms-first = refl
