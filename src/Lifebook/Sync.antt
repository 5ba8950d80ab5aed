-- ===== src/Lifebook/Sync.antt =====
-- trackpoint-lost/lifebook.c: the first bytes that `lifebook_process_byte` does not take.
use debugging.Common.{ℕ, ◌≡◌, ◌/◌, false, true, ◌==◌, refl}
use debugging.Common.Bits.{bit}
use debugging.Psmouse.Receive.Sync.{RejectsFirst}
use debugging.Lifebook.{process_byte, check, check_six, conclude}

-- In six bytes a touch begins with a byte below 8; a movement of the stick has bit 3 set.
pub process_byte-rejects :
    (byte : ℕ)
    → (byte / 8 == 0) ≡ false
    → bit byte 3 ≡ false
    → RejectsFirst (process_byte true) byte
unfolding process_byte check check_six conclude
process_byte-rejects byte high touch m first same = rw (same, touch, first) (rw high refl)
