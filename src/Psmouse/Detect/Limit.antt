-- ===== src/Psmouse/Detect/Limit.antt =====
-- The limit on the protocol, `max_proto`: what is found under it.
use debugging.Common.{ℕ, ◌≤◌, ◌≡◌, ◌⊎◌, inl, inr, Bool, true, refl, arith, Bool-cases, ltb, leb}
use debugging.Psmouse.{PsmouseType, rank}
use debugging.Psmouse.Detect.{
  Probes, Search, Outcome, found, go_on, ◌>>=◌, imex, try_protocol, try, try_above_imex,
  try_focaltech, try_synaptics, try_alps, try_elantech, try_relative, try_standard, bare,
  special_probes, standard_probes, extensions, conclude,
}

-- What may be found where no extension above IntelliMouse Explorer is allowed: a protocol up to the
-- limit, or one of the two that the source probes whatever the limit.
abbrev pub IsAllowed : ℕ → PsmouseType → Type 0
IsAllowed max t = (rank t ≤ max) ⊎ (t ≡ PsmouseType.lifebook) ⊎ (t ≡ PsmouseType.vmmouse)

abbrev Within : {W : Type 0} → ℕ → Outcome W → Type 0
Within max (found t w) = IsAllowed max t
Within max (go_on s) = s.max_proto ≤ max

Within->>= :
    {W : Type 0} (max : ℕ) (o : Outcome W) (k : Search W → Outcome W)
    → Within max o
    → ((s : Search W) → s.max_proto ≤ max → Within max (k s))
    → Within max (o >>= k)
Within->>= max (found t w) k h f = h
Within->>= max (go_on s) k h f = f s h

module _ {W : Type 0} (p : Probes W) (set_properties : Bool) (max : ℕ) where
  try_protocol-max :
      (t : PsmouseType) (init_allowed : Bool) (s : Search W)
      → (try_protocol p set_properties t init_allowed s).0.max_proto ≤ s.max_proto
  unfolding try_protocol
  try_protocol-max t init_allowed s = ground arith

  try-Within :
      (t : PsmouseType) (init_allowed : Bool) (s : Search W)
      → IsAllowed max t
      → s.max_proto ≤ max
      → Within max (try p set_properties t init_allowed s)
  unfolding try
  try-Within t init_allowed s a h =
      elim (Bool-cases (try_protocol p set_properties t init_allowed s).1) [
        | inl taken ↦ rw taken a
        | inr not_taken ↦ rw not_taken (omega (arith, try_protocol-max t init_allowed s))
      ]

  module _ (low : max ≤ imex) (high : 1 ≤ max) where
    try_above_imex-Within :
        (t : PsmouseType) (s : Search W)
        → s.max_proto ≤ max
        → Within max (try_above_imex p set_properties t s)
    unfolding try_above_imex
    try_above_imex-Within t s h = ground arith

    try_focaltech-Within :
        (s : Search W) → s.max_proto ≤ max → Within max (try_focaltech p set_properties s)
    unfolding try_focaltech
    try_focaltech-Within s h = ground arith

    try_synaptics-Within :
        (s : Search W) → s.max_proto ≤ max → Within max (try_synaptics p set_properties s)
    unfolding try_synaptics
    try_synaptics-Within s h = ground arith

    try_alps-Within : (s : Search W) → s.max_proto ≤ max → Within max (try_alps p set_properties s)
    unfolding try_alps
    try_alps-Within s h = ground arith

    try_elantech-Within :
        (s : Search W) → s.max_proto ≤ max → Within max (try_elantech p set_properties s)
    unfolding try_elantech
    try_elantech-Within s h = ground arith

    try_relative-Within :
        (s : Search W) → s.max_proto ≤ max → Within max (try_relative p set_properties s)
    unfolding try_relative
    try_relative-Within s h = ground arith

    special_probes-Within :
        (s : Search W) → s.max_proto ≤ max → Within max (special_probes p set_properties s)
    unfolding special_probes
    special_probes-Within s h =
        let above = λ (t : PsmouseType). try_above_imex p set_properties t in
        let v0 = try_focaltech-Within s h in
        let v1 =
          Within->>= max _ (λ u. try p set_properties PsmouseType.lifebook (ltb imex u.max_proto) u)
            v0 (λ u. try-Within PsmouseType.lifebook _ u (inr (inl refl))) in
        let v2 =
          Within->>= max _ (λ u. try p set_properties PsmouseType.vmmouse (ltb imex u.max_proto) u)
            v1 (λ u. try-Within PsmouseType.vmmouse _ u (inr (inr refl))) in
        let v3 =
          Within->>= max _ (above PsmouseType.thinkps) v2
            (try_above_imex-Within PsmouseType.thinkps) in
        let v4 = Within->>= max _ (try_synaptics p set_properties) v3 try_synaptics-Within in
        let v5 =
          Within->>= max _ (above PsmouseType.cypress) v4
            (try_above_imex-Within PsmouseType.cypress) in
        let v6 = Within->>= max _ (try_alps p set_properties) v5 try_alps-Within in
        let v7 =
          Within->>= max _ (above PsmouseType.hgpk) v6 (try_above_imex-Within PsmouseType.hgpk) in
        let v8 = Within->>= max _ (try_elantech p set_properties) v7 try_elantech-Within in
        let v9 = Within->>= max _ (try_relative p set_properties) v8 try_relative-Within in
        Within->>= max _ (above PsmouseType.fsp) v9 (try_above_imex-Within PsmouseType.fsp)

    try_standard-Within :
        (t : PsmouseType) (s : Search W)
        → s.max_proto ≤ max
        → Within max (try_standard p set_properties t s)
    unfolding try_standard
    try_standard-Within t s h = elim (Bool-cases (leb (rank t) s.max_proto)) [
      | inl allowed ↦ rw allowed (try-Within t true s (inl (ground arith)) h)
      | inr above ↦ rw above h
    ]

    standard_probes-Within :
        (s : Search W) → s.max_proto ≤ max → Within max (standard_probes p set_properties s)
    unfolding standard_probes
    standard_probes-Within s h =
        Within->>= max _ _ (try_standard-Within PsmouseType.imex _ h)
          (try_standard-Within PsmouseType.imps)

    conclude-IsAllowed :
        (o : Outcome W) → Within max o → IsAllowed max (conclude p set_properties o).0
    unfolding conclude bare
    conclude-IsAllowed (found t w) h = h
    conclude-IsAllowed (go_on s) h = inl high

  -- Where the limit allows no extension above IntelliMouse Explorer, what is found is a protocol up
  -- to the limit, or LifeBook or VMMouse, whatever the probes answer and also where a FocalTech or a
  -- Synaptics device changes the limit on the way. (The limit is at least bare PS/2.)
  pub extensions-IsAllowed :
      (w : W) → max ≤ imex → 1 ≤ max → IsAllowed max (extensions p set_properties max w).0
  unfolding extensions
  extensions-IsAllowed w low high = conclude-IsAllowed low high _ (
      Within->>= max _ _ (special_probes-Within low high _ (omega arith))
        (standard_probes-Within low high))
