-- ===== src/Byd/Words.antt =====
-- The arithmetic of byd.c on 32-bit words, against integers.
use debugging.Common.{ℕ, ◌+◌, ◌*◌, ◌-◌, ◌^◌, ◌≤◌, ◌<◌, ◌≡◌, Bool, true, false, arith}
use debugging.Common.Int.{ℤ, pos, negsuc, neg, abs, times, ◌+ℤ◌}
use debugging.Kernel.{u32, s32}
use debugging.Byd.{signed_word, dt}

-- An integer in two's complement.
abbrev pub word : ℤ → ℕ
word (pos n) = n
word (negsuc n) = 2 ^ 32 - 1 - n

-- The low byte of a displacement of a packet, and its sign.
abbrev pub low : ℤ → ℕ
low (pos n) = n
low (negsuc n) = 255 - n

abbrev pub is_negative : ℤ → Bool
is_negative (pos n) = false
is_negative (negsuc n) = true

pub s32-word : (z : ℤ) → abs z < 2 ^ 31 → s32 (word z) ≡ z
s32-word (pos n) h = ground arith
s32-word (negsuc n) h = ground arith

-- The velocity of a packet, added to a coordinate or taken from it.
pub word-right :
    (z d : ℤ)
    → abs d ≤ 255
    → abs z + 2816 < 2 ^ 31
    → u32 (word z + signed_word (is_negative d) (low d) * dt) ≡ word (z +ℤ times dt d)
word-right (pos n) (pos k) h b = ground arith
word-right (pos n) (negsuc k) h b = ground arith
word-right (negsuc n) (pos k) h b = ground arith
word-right (negsuc n) (negsuc k) h b = ground arith

pub word-up :
    (z d : ℤ)
    → abs d ≤ 255
    → abs z + 2816 < 2 ^ 31
    → u32 (word z + (2 ^ 32 - signed_word (is_negative d) (low d)) * dt)
      ≡ word (z +ℤ neg (times dt d))
word-up (pos n) (pos k) h b = ground arith
word-up (pos n) (negsuc k) h b = ground arith
word-up (negsuc n) (pos k) h b = ground arith
word-up (negsuc n) (negsuc k) h b = ground arith

-- One packet moves a coordinate by no more than 2816.
pub abs-right : (z d : ℤ) → abs d ≤ 255 → abs (z +ℤ times dt d) ≤ abs z + 2816
abs-right (pos n) (pos k) h = ground arith
abs-right (pos n) (negsuc k) h = ground arith
abs-right (negsuc n) (pos k) h = ground arith
abs-right (negsuc n) (negsuc k) h = ground arith

pub abs-up : (z d : ℤ) → abs d ≤ 255 → abs (z +ℤ neg (times dt d)) ≤ abs z + 2816
abs-up (pos n) (pos k) h = ground arith
abs-up (pos n) (negsuc k) h = ground arith
abs-up (negsuc n) (pos k) h = ground arith
abs-up (negsuc n) (negsuc k) h = ground arith
