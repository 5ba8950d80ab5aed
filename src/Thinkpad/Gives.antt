-- ===== src/Thinkpad/Gives.antt =====
-- What an action makes true: `Q` of its value and of the driver where it returns one, and `R` of the
-- driver where it fails.
use debugging.Common.{Option, none, some}
use debugging.Thinkpad.{Tp, Action, Result, attempt, ◌>>=◌, caught, followed}

abbrev pub Ends : {E A : Type 0} → (A → Tp E → Type 0) → (Tp E → Type 0) → Result A × Tp E → Type 0
Ends Q R (Result.done a, t) = Q a t
Ends Q R (Result.failed code, t) = R t

pub record Gives {E A : Type 0} (P : Tp E → Type 0) (m : Action E A) (Q : A → Tp E → Type 0)
    (R : Tp E → Type 0) : Type 0 where
  pub ends : (t : Tp E) → P t → Ends Q R (m t)

followed-Ends :
    {E A B : Type 0} (Q : A → Tp E → Type 0) (S : B → Tp E → Type 0) (R : Tp E → Type 0)
    (r : Result A × Tp E) (f : A → Action E B)
    → ((a : A) → Gives (Q a) (f a) S R)
    → Ends Q R r
    → Ends S R (followed r f)
unfolding followed
followed-Ends Q S R (Result.done a, t) f k h = (k a).ends t h
followed-Ends Q S R (Result.failed code, t) f k h = h

caught-Ends :
    {E A : Type 0} (Q : A → Tp E → Type 0) (S : Option A → Tp E → Type 0) (R : Tp E → Type 0)
    (r : Result A × Tp E)
    → ((a : A) (t : Tp E) → Q a t → S (some a) t)
    → ((t : Tp E) → R t → S none t)
    → Ends Q R r
    → Ends S R (caught r)
unfolding caught
caught-Ends Q S R (Result.done a, t) k l h = k a t h
caught-Ends Q S R (Result.failed code, t) k l h = l t h

module _ {E : Type 0} {P : Tp E → Type 0} (R : Tp E → Type 0) where
  pub Gives-bind :
      {A B : Type 0} {S : B → Tp E → Type 0} (m : Action E A) (f : A → Action E B)
      (Q : A → Tp E → Type 0)
      → Gives P m Q R
      → ((a : A) → Gives (Q a) (f a) S R)
      → Gives P (m >>= f) S R
  unfolding ◌>>=◌
  Gives-bind {S = S} m f Q k l = record { ends = λ t h. followed-Ends Q S R (m t) f l (k.ends t h) }

  pub Gives-attempt :
      {A : Type 0} (m : Action E A) (Q : A → Tp E → Type 0) (S : Option A → Tp E → Type 0)
      → Gives P m Q R
      → ((a : A) (t : Tp E) → Q a t → S (some a) t)
      → ((t : Tp E) → R t → S none t)
      → Gives P (attempt m) S R
  unfolding attempt
  Gives-attempt m Q S g k l = record { ends = λ t h. caught-Ends Q S R (m t) k l (g.ends t h) }
