-- ===== src/Thinkpad/Keeps.antt =====
-- A predicate on the driver and its firmware that an action keeps, whatever it returns.
use debugging.Common.{ℕ, Bool, true, false, Option, none, some, if◌then◌else◌}
use debugging.Thinkpad.{
  Tp, Action, Result, FanState, give, fail, look, required, attempt, ◌>>=◌, caught, followed,
}

pub record Keeps {E A : Type 0} (P : Tp E → Type 0) (m : Action E A) : Type 0 where
  pub holds : (t : Tp E) → P t → P (m t).1

caught-state : {E A : Type 0} (P : Tp E → Type 0) (r : Result A × Tp E) → P r.1 → P (caught r).1
unfolding caught
caught-state P (Result.done a, t) h = h
caught-state P (Result.failed code, t) h = h

followed-state :
    {E A B : Type 0} (P : Tp E → Type 0) (r : Result A × Tp E) (f : A → Action E B)
    → ((a : A) → Keeps P (f a))
    → P r.1
    → P (followed r f).1
unfolding followed
followed-state P (Result.done a, t) f k h = (k a).holds t h
followed-state P (Result.failed code, t) f k h = h

module _ {E A : Type 0} {P : Tp E → Type 0} where
  pub Keeps-give : (a : A) → Keeps P (give a)
  unfolding give
  Keeps-give a = record { holds = λ t h. h }

  pub Keeps-fail : (code : ℕ) → Keeps P (fail {A = A} code)
  unfolding fail
  Keeps-fail code = record { holds = λ t h. h }

  pub Keeps-look : (f : FanState → A) → Keeps P (look f)
  unfolding look
  Keeps-look f = record { holds = λ t h. h }

  pub Keeps-required : (code : ℕ) (o : Option A) → Keeps P (required code o)
  unfolding required
  Keeps-required code none = record { holds = λ t h. h }
  Keeps-required code (some a) = record { holds = λ t h. h }

  pub Keeps-if :
      (b : Bool) (m n : Action E A) → Keeps P m → Keeps P n → Keeps P (if b then m else n)
  Keeps-if true m n k l = k
  Keeps-if false m n k l = l

  pub Keeps-attempt : (m : Action E A) → Keeps P m → Keeps P (attempt m)
  unfolding attempt
  Keeps-attempt m k = record { holds = λ t h. caught-state P (m t) (k.holds t h) }

module _ {E A B : Type 0} {P : Tp E → Type 0} where
  pub Keeps-bind :
      (m : Action E A) (f : A → Action E B)
      → Keeps P m
      → ((a : A) → Keeps P (f a))
      → Keeps P (m >>= f)
  unfolding ◌>>=◌
  Keeps-bind m f k l = record { holds = λ t h. followed-state P (m t) f l (k.holds t h) }

pub ruleset keeping =
    (Keeps-give, Keeps-fail, Keeps-look, Keeps-required, Keeps-if, Keeps-attempt, Keeps-bind)
