-- ===== src/Kernel/Api.antt =====
-- What the drivers use of the kernel's headers: HZ, `time_after` of <linux/jiffies.h> over the
-- 64-bit counter `jiffies`, which wraps, `msecs_to_jiffies`, and `sign_extend32` of <linux/bitops.h>.
use debugging.Common.{ℕ, ◌+◌, ◌-◌, ◌*◌, ◌/◌, ◌%◌, ◌^◌, ◌<◌, ◌≡◌, Bool, true, false, refl, arith}
use debugging.Common.{ltb, if◌then◌else◌}
use debugging.Common.Int.{ℤ, pos, sub_ℕ}

abbrev pub u64 : ℕ → ℕ
u64 n = n % 2 ^ 64

abbrev pub u32 : ℕ → ℕ
u32 n = n % 2 ^ 32

-- `(s32) n` of a 32-bit word.
abbrev pub s32 : ℕ → ℤ
s32 n = if ltb n (2 ^ 31) then pos n else sub_ℕ n (2 ^ 32)

pub record Headers : Type 0 where
  pub hz : ℕ
  pub time_after : ℕ → ℕ → Bool
  pub msecs_to_jiffies : ℕ → ℕ
  pub sign_extend32 : ℕ → ℕ → ℤ

-- `time_after a b` is true if `a` is later than `b`, also across the wrap, for two times that
-- are less than 2 ^ 63 apart. `sign_extend32 v k` reads the bits up to k of `v`, and bit k as the
-- sign.
pub record IsLinux (h : Headers) : Type 0 where
  pub later : (b d : ℕ) → 0 < d → d < 2 ^ 63 → h.time_after (u64 (b + d)) (u64 b) ≡ true
  pub not_later : (a d : ℕ) → d < 2 ^ 63 → h.time_after (u64 a) (u64 (a + d)) ≡ false
  pub extends :
      (v k : ℕ)
      → v < 2 ^ 32
      → k < 32
      → h.sign_extend32 v k
        ≡ sub_ℕ (v % 2 ^ (k + 1)) (if ltb (v % 2 ^ (k + 1)) (2 ^ k) then 0 else 2 ^ (k + 1))

-- An instance of the laws, with the comparison over the difference modulo 2 ^ 64.
abbrev pub linux_headers : Headers
linux_headers = record {
  hz = 250;
  time_after = λ a b. ltb (2 ^ 63 - 1) (u64 (u64 b + 2 ^ 64 - u64 a));
  msecs_to_jiffies = λ ms. (ms * 250 + 999) / 1000;
  sign_extend32 =
      λ v k. sub_ℕ (v % 2 ^ (k + 1)) (if ltb (v % 2 ^ (k + 1)) (2 ^ k) then 0 else 2 ^ (k + 1));
}

pub linux_headers-IsLinux : IsLinux linux_headers
linux_headers-IsLinux = record {
  later = λ b d p q. ground arith;
  not_later = λ a d q. ground arith;
  extends = λ v k p q. refl;
}
