-- ===== src/Psmouse/Command/Rate.antt =====
-- `psmouse_set_rate` and `psmouse_set_resolution`: which supported value a request becomes.
use debugging.Common.{
  ap, Bool-cases, get_or, ℕ, zero, suc, ◌*◌, ◌/◌, ◌^◌, ◌≤◌, ◌≡◌, inl, inr, List, [], ◌∷◌, some,
  refl, arith, All, ltb, if◌then◌else◌, ◌||◌, ◌==◌,
}
use debugging.Kernel.{Ps2, bytes}
use debugging.Psmouse.{Psmouse}
use debugging.Psmouse.Command.{
  resolution_params, rates, pick_rate, resolution_param, set_rate, set_resolution, cmd_setrate,
  cmd_setres,
}

-- `r` is the greatest value of a table that does not exceed the request.
abbrev pub IsGreatest : List ℕ → ℕ → ℕ → Type 0
IsGreatest table request r = (r ≤ request) × All (λ s. s ≤ request → s ≤ r) table

-- A descending table whose last entry is 0, so that the loop stops inside it.
abbrev IsTable : List ℕ → Type 0
IsTable [] = ⊥
IsTable (r ∷ []) = r ≡ 0
IsTable (r ∷ s ∷ rs) = All (λ t. t ≤ r) (s ∷ rs) × IsTable (s ∷ rs)

All-le : (rs : List ℕ) (r request : ℕ) → All (λ t. t ≤ r) rs → All (λ t. t ≤ request → t ≤ r) rs
All-le [] r request h = tt
All-le (t ∷ rs) r request h = (λ _. h.0, All-le rs r request h.1)

pick_rate-IsGreatest :
    (table : List ℕ) (request : ℕ)
    → IsTable table
    → (r : ℕ) × (pick_rate table request ≡ some r) × IsGreatest table request r
unfolding pick_rate
pick_rate-IsGreatest [] request t = absurd t
pick_rate-IsGreatest (r ∷ []) request t = (r, ground arith, omega arith)
pick_rate-IsGreatest (r ∷ s ∷ rs) request t = elim (Bool-cases (ltb request r)) [
  | inl above ↦
      let (v, e, best) = pick_rate-IsGreatest (s ∷ rs) request t.1 in
      (v, rw above e, (best.0, (ground arith, best.1)))
  | inr within ↦
      (r, rw within refl, (ground arith, ((λ _. omega arith), All-le (s ∷ rs) r request t.0)))
]

rates-IsTable : IsTable rates
rates-IsTable = omega arith

-- `psmouse_set_rate` never reads past its table: for every request it sends the device the greatest
-- rate of the table that is not above the request, and stores that rate and nothing else.
pub set_rate-IsGreatest :
    {D P : Type 0} (ps2 : Ps2 D) (rate : ℕ) (d : D) (m : Psmouse P)
    → (r : ℕ) × (set_rate ps2 rate d m
        ≡ some ((ps2.command d cmd_setrate (bytes (r ∷ []))).device, record m { rate = r }))
      × IsGreatest rates rate r
unfolding set_rate
set_rate-IsGreatest ps2 rate d m =
    let (r, e, greatest) = pick_rate-IsGreatest rates rate rates-IsTable in
    (r, rw (e, set_rate) refl, greatest)

-- The resolutions that a mouse has.
abbrev pub resolutions : List ℕ
resolutions = 25 ∷ 50 ∷ 100 ∷ 200 ∷ []

-- The request as the source reads it: 0 and all above 200 mean 200, and no mouse goes below 25.
abbrev pub effective : ℕ → ℕ
effective request =
    if request == 0 || ltb 200 request then 200 else if ltb request 25 then 25 else request

-- The entry of the table for a request from 50 q on.
param-IsGreatest :
    (q request : ℕ)
    → 25 ≤ request
    → request ≤ 200
    → q ≡ request / 50
    → IsGreatest resolutions request (25 * 2 ^ get_or resolution_params q 0)
param-IsGreatest zero request a b e = omega arith
param-IsGreatest (suc zero) request a b e = omega arith
param-IsGreatest (suc (suc zero)) request a b e = omega arith
param-IsGreatest (suc (suc (suc zero))) request a b e = omega arith
param-IsGreatest (suc (suc (suc (suc zero)))) request a b e = omega arith
param-IsGreatest (suc (suc (suc (suc (suc q))))) request a b e = absurd (omega arith)

-- The request and what the source makes of it have the same entry.
effective-resolution_param :
    (request : ℕ) → resolution_param request ≡ get_or resolution_params (effective request / 50) 0
unfolding resolution_param
effective-resolution_param request = elim (Bool-cases (request == 0 || ltb 200 request)) [
  | inl e ↦ rw e
  | inr e ↦ rw e (ap (λ q. get_or resolution_params q 0) (ground arith))
]

-- `psmouse_set_resolution` sends the code p of the greatest resolution 25 * 2 ^ p of the mouse that
-- is not above the request, which counts as 200 if it is 0 or more than 200 and as 25 if it is less
-- than that, and stores that resolution.
pub set_resolution-IsGreatest :
    {D P : Type 0} (ps2 : Ps2 D) (request : ℕ) (d : D) (m : Psmouse P)
    → (p : ℕ) × (set_resolution ps2 request d m ≡ (
      (ps2.command d cmd_setres (bytes (p ∷ []))).device,
      record m { resolution = 25 * 2 ^ p },
    ))
      × IsGreatest resolutions (effective request) (25 * 2 ^ p)
unfolding set_resolution
set_resolution-IsGreatest ps2 request d m = (
  resolution_param request,
  refl,
  rw (effective-resolution_param request) (
      param-IsGreatest (effective request / 50) (effective request) (ground arith) (ground arith)
        refl),
)
