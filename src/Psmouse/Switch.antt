-- ===== src/Psmouse/Switch.antt =====
-- psmouse-base.c: `psmouse_switch_protocol`, and the part of `psmouse_apply_defaults` that writes the
-- mouse. The naming of the input device is not modelled.
use debugging.Common.{
  ℕ, ◌≡◌, ◌≢◌, ◌⊎◌, inl, inr, Bool, true, false, Option, none, some, refl, arith, ◌==◌, ◌||◌,
  if◌then◌else◌, Bool-cases,
}
use debugging.Psmouse.{Psmouse, PsmouseType, Protocol}
use debugging.Psmouse.Resync.{Poll}
use debugging.Psmouse.Detect.{Probes, extensions}

-- An entry of the table with its two functions; `none` is NULL. A function gives whether its code is
-- negative.
pub record Entry (D P : Type 0) : Type 0 where
  pub protocol : Protocol
  pub detect : Option (D → Psmouse P → D × Psmouse P × Bool)
  pub init : Option (D → Psmouse P → D × Psmouse P × Bool)

-- The entry of bare PS/2, the first of psmouse_protocols.
abbrev pub bare_protocol : Protocol
bare_protocol = record {
  type = PsmouseType.ps2;
  maxproto = true;
  ignore_parity = true;
  try_passthru = true;
  smbus_companion = false;
}

-- What `psmouse_apply_defaults` writes into the mouse, but for the function pointers.
abbrev pub apply_defaults : {P : Type 0} → Psmouse P → Psmouse P
apply_defaults m = record m { protocol = bare_protocol; pktsize = 3 }

-- One of the two functions, if it is there; true if it failed.
abbrev pub run :
    {D P : Type 0}
    → Option (D → Psmouse P → D × Psmouse P × Bool)
    → D
    → Psmouse P
    → D × Psmouse P × Bool
run none d m = (d, m, false)
run (some f) d m = f d m

abbrev pub is_some : {A : Type 0} → Option A → Bool
is_some none = false
is_some (some a) = true

module _ {D P : Type 0} (poll_mouse : Poll D P) where
  -- The end of the function: which mice are polled for a resync.
  unfoldable pub settle_resync : D → Psmouse P → D × Psmouse P
  settle_resync d m =
      let m₁ = if m.pktsize == 3 then record m { resync_time = 0 } else m in
      let (d₂, m₂, code) = poll_mouse d m₁ in
      if m₁.resync_time == 0
      then (d, m₁)
      else if code == 0
      then (d₂, m₂)
      else (d₂, record m₂ { resync_time = 0 })

  module _ (probes : Probes (D × Psmouse P)) (by_type : PsmouseType → Protocol)
      (max_proto : ℕ) where
    -- The choice by a new search, with `psmouse_protocol_by_type`.
    unfoldable pub select : D → Psmouse P → D × Psmouse P
    select d m =
        let (type, (d', m')) = extensions probes true max_proto (d, m) in
        settle_resync d' (record m' { protocol = by_type type })

    -- A given protocol; the code 1 is the -1 of the source.
    unfoldable pub switch_to : Entry D P → D → Psmouse P → D × Psmouse P × ℕ
    switch_to proto d m =
        let (d₁, m₁, undetected) = run proto.detect d (apply_defaults m) in
        let (d₂, m₂, failed) = run proto.init d₁ m₁ in
        let (d₃, m₃) = settle_resync d₂ (record m₂ { protocol = proto.protocol }) in
        if undetected then (d₁, m₁, 1) else if failed then (d₂, m₂, 1) else (d₃, m₃, 0)

    -- `psmouse_switch_protocol`
    unfoldable pub switch_protocol : Option (Entry D P) → D → Psmouse P → D × Psmouse P × ℕ
    switch_protocol none d m = let (d', m') = select d m in (d', m', 0)
    switch_protocol (some proto) d m =
        let (d', m') = select d m in
        if is_some proto.detect || is_some proto.init then switch_to proto d m else (d', m', 0)

-- The mouse has no idle limit, or it is what an answered poll left of one with a packet of another
-- size than three bytes.
abbrev pub IsPollable : {D P : Type 0} → Poll D P → Psmouse P → Type 0
IsPollable {D} {P} poll_mouse m =
    (m.resync_time ≡ 0)
    ⊎ ((d : D) × (u : Psmouse P) × (u.pktsize ≢ 3)
        × ((poll_mouse d u).2 ≡ 0)
        × (m ≡ (poll_mouse d u).1))

module _ {D P : Type 0} (poll_mouse : Poll D P) where
  settle_resync-IsPollable :
      (d : D) (m : Psmouse P) → IsPollable poll_mouse (settle_resync poll_mouse d m).1
  unfolding settle_resync
  settle_resync-IsPollable d m = elim (Bool-cases (m.pktsize == 3)) [
    | inl short ↦ inl (simp short refl)
    | inr long ↦ elim (Bool-cases (m.resync_time == 0)) [
      | inl off ↦ inl (ground arith)
      | inr on ↦ elim (Bool-cases ((poll_mouse d m).2 == 0)) [
        | inl answered ↦ inr (d, m, ground arith, ground arith, simp (long, on, answered) refl)
        | inr silent ↦ inl (simp (long, on, silent) refl)
      ]
    ]
  ]

  -- A switch of the protocol that succeeds, to a given protocol or by a new search, leaves the mouse
  -- without an idle limit, unless its packets are not of three bytes and it has answered a poll.
  pub switch_protocol-IsPollable :
      (probes : Probes (D × Psmouse P)) (by_type : PsmouseType → Protocol) (max_proto : ℕ)
      (proto : Option (Entry D P)) (d : D) (m : Psmouse P)
      → (switch_protocol poll_mouse probes by_type max_proto proto d m).2 ≡ 0
      → IsPollable poll_mouse (switch_protocol poll_mouse probes by_type max_proto proto d m).1
  unfolding switch_protocol switch_to select
  switch_protocol-IsPollable probes by_type max_proto none d m ok = settle_resync-IsPollable _ _
  switch_protocol-IsPollable probes by_type max_proto (some proto) d m ok =
      elim (Bool-cases (is_some proto.detect || is_some proto.init)) [
        | inr bare ↦ simp bare (settle_resync-IsPollable _ _)
        | inl given ↦
            let (d₁, m₁, undetected) = run proto.detect d (apply_defaults m) in
            let (d₂, m₂, failed) = run proto.init d₁ m₁ in
            elim (Bool-cases undetected) [
              | inl refused ↦ absurd (ground arith)
              | inr detected ↦ elim (Bool-cases failed) [
                | inl broken ↦ absurd (ground arith)
                | inr done ↦
                    simp (given, detected, done)
                      (settle_resync-IsPollable d₂ (record m₂ { protocol = proto.protocol }))
              ]
            ]
      ]
