-- ===== src/Trackpoint/Attributes.antt =====
-- The set functions of the attributes on a documented device.
use mathlib.Core.Path.{subst}
use debugging.Common.{
  ℕ, ◌^◌, ◌≤◌, ◌<◌, ◌≡◌, ◌≢◌, ◌∙◌, sym, ap, not, bit_and, ◌==◌, if◌then◌else◌, refl, arith,
  Bool-cases, inl, inr,
}
use debugging.Common.Bits.{of_bool}
use debugging.Kernel.{Ps2}
use debugging.Trackpoint.{Attr, Data, field_offset, command, mask}
use debugging.Trackpoint.Io.{
  Parsed, Stored, put, write, toggle_bit, show_int_attr, set_int_attr, set_bit_attr, set_attr,
}
use debugging.Trackpoint.Device.{Ram, Holds, IsTrackpoint}
use debugging.Trackpoint.Settings.{test-toggle, command-injective, write_lem, Holds-frame}

attr_of_offset : ℕ → Attr
attr_of_offset n =
    if n == 2
    then Attr.sensitivity
    else if n == 3
    then Attr.speed
    else if n == 4
    then Attr.inertia
    else if n == 5
    then Attr.reach
    else if n == 6
    then Attr.draghys
    else if n == 7
    then Attr.mindrag
    else if n == 8
    then Attr.thresh
    else if n == 9
    then Attr.upthresh
    else if n == 10
    then Attr.ztime
    else if n == 11
    then Attr.jenks
    else if n == 12
    then Attr.drift_time
    else if n == 13
    then Attr.press_to_select
    else if n == 14
    then Attr.skipback
    else Attr.ext_dev

attr_of_offset-field_offset : (a : Attr) → attr_of_offset (field_offset a) ≡ a
unfolding attr_of_offset
attr_of_offset-field_offset Attr.sensitivity = refl
attr_of_offset-field_offset _ = refl

field_offset-injective : (a b : Attr) → field_offset a ≡ field_offset b → a ≡ b
field_offset-injective a b e =
    sym (attr_of_offset-field_offset a) ∙ ap attr_of_offset e ∙ attr_of_offset-field_offset b

-- Attributes at other locations are other fields.
put-other :
    (a b : Attr) (v : ℕ) (tp : Data) → command b ≢ command a → (put a v tp).value b ≡ tp.value b
put-other a b v tp ne = elim (Bool-cases (field_offset b == field_offset a)) [
  | inl same ↦ absurd (ne (ap command (field_offset-injective b a (ground arith))))
  | inr other ↦ rw other
]

put_self : (a : Attr) (v : ℕ) (tp : Data) → (put a v tp).value a ≡ v
put_self a v tp = ground arith

-- What the kernel's parsers give: a byte for an integer, 0 or 1 for a bit.
abbrev pub IsParsed : Attr → ℕ → Type 0
IsParsed a v = v ≤ (if mask a == 0 then 255 else 1)

module _ {D : Type 0} (ps2 : Ps2 D) (ram : Ram D) (device : IsTrackpoint ps2 ram) where
  -- The device holds every attribute of the driver's data, and the bits are 0 or 1.
  abbrev pub Agrees : Data → D → Type 0
  Agrees tp d = (b : Attr) → Holds ram d b (tp.value b) × IsParsed b (tp.value b)

  toggle_lem :
      (loc k : ℕ) (d : D)
      → 0x20 ≤ loc
      → loc < 0x2f
      → let d' = (toggle_bit ps2 loc (2 ^ k) d).0 in
        ((bit_and (ram d' loc) (2 ^ k) == 2 ^ k) ≡ not (bit_and (ram d loc) (2 ^ k) == 2 ^ k))
        × ((l : ℕ) → l ≢ loc → ram d' l ≡ ram d l)
        × ((toggle_bit ps2 loc (2 ^ k) d).1 ≡ 0)
  unfolding toggle_bit
  toggle_lem loc k d low high =
      let toggled = device.toggles d loc (2 ^ k) in
      (ground (arith, test-toggle (ram d loc) k), λ l ne. ground (arith, toggled.2 l), ground arith)

  -- The attribute that is written: its value in the device, and the number shown.
  set_attr-Holds :
      (a : Attr) (v count : ℕ) (d : D) (tp : Data)
      → IsParsed a v
      → Holds ram d a (tp.value a)
      → IsParsed a (tp.value a)
      → let r = set_attr ps2 a (Parsed.parsed v) count d tp in
        Holds ram r.0 a (r.1.value a)
        × IsParsed a (r.1.value a)
        × (show_int_attr a r.1 ≡ v)
        × (r.2 ≡ Stored.taken count)
  unfolding set_attr set_int_attr set_bit_attr show_int_attr write
  set_attr-Holds Attr.press_to_select v count d tp p held small =
      let flip = toggle_lem 0x2c 0 d (omega arith) (omega arith) in
      (ground arith, ground arith, ground arith, ground arith)
  set_attr-Holds Attr.skipback v count d tp p held small =
      let flip = toggle_lem 0x2d 3 d (omega arith) (omega arith) in
      (ground arith, ground arith, ground arith, ground arith)
  set_attr-Holds Attr.ext_dev v count d tp p held small =
      let flip = toggle_lem 0x23 1 d (omega arith) (omega arith) in
      (ground arith, ground arith, ground arith, ground arith)
  set_attr-Holds a v count d tp p held small =
      let code = (device.writes d (command a) v).0 in
      let there = write_lem ps2 ram device (command a) v d in
      (ground (arith, put_self a v tp), p, refl, ground arith)

  -- The attributes that are not written.
  set_attr-other :
      (a b : Attr) (v count : ℕ) (d : D) (tp : Data)
      → command b ≢ command a
      → let r = set_attr ps2 a (Parsed.parsed v) count d tp in
        (ram r.0 (command b) ≡ ram d (command b)) × (r.1.value b ≡ tp.value b)
  unfolding set_attr set_int_attr set_bit_attr
  set_attr-other Attr.press_to_select b v count d tp ne =
      let (flip, frame, code) = toggle_lem 0x2c 0 d (omega arith) (omega arith) in
      let same = frame (command b) ne in
      (ground arith, ground (arith, put-other Attr.press_to_select b v tp))
  set_attr-other Attr.skipback b v count d tp ne =
      let (flip, frame, code) = toggle_lem 0x2d 3 d (omega arith) (omega arith) in
      let same = frame (command b) ne in
      (ground arith, ground (arith, put-other Attr.skipback b v tp))
  set_attr-other Attr.ext_dev b v count d tp ne =
      let (flip, frame, code) = toggle_lem 0x23 1 d (omega arith) (omega arith) in
      let same = frame (command b) ne in
      (ground arith, ground (arith, put-other Attr.ext_dev b (of_bool (v == 0)) tp))
  set_attr-other a b v count d tp ne =
      let (there, frame) = write_lem ps2 ram device (command a) v d in
      (frame (command b) ne, put-other a b v tp ne)

  -- Writing a value to an attribute whose device agrees with the driver's data succeeds, shows the
  -- value when it is read back, and leaves them in agreement on every attribute, also where the bit
  -- is stored inverted and where only a change is sent to the device.
  pub set_attr-Agrees :
      (a : Attr) (v count : ℕ) (d : D) (tp : Data)
      → IsParsed a v
      → Agrees tp d
      → let r = set_attr ps2 a (Parsed.parsed v) count d tp in
        Agrees r.1 r.0 × (show_int_attr a r.1 ≡ v) × (r.2 ≡ Stored.taken count)
  set_attr-Agrees a v count d tp p agrees =
      let (held, small, shown, stored) =
        set_attr-Holds a v count d tp p (agrees a).0 (agrees a).1 in
      (
        λ b. elim (Bool-cases (command b == command a)) [
          | inl same ↦
              subst
                (λ c.
                  Holds ram (set_attr ps2 a (Parsed.parsed v) count d tp).0 c
                    ((set_attr ps2 a (Parsed.parsed v) count d tp).1.value c)
                  × IsParsed c ((set_attr ps2 a (Parsed.parsed v) count d tp).1.value c))
                (command-injective a b (ground arith)) (held, small)
          | inr other ↦
              let (ram_same, value_same) = set_attr-other a b v count d tp (ground arith) in
              (
                Holds-frame ps2 ram device b _ d _ ram_same
                    (subst (λ u. Holds ram d b u) (sym value_same) (agrees b).0),
                subst (λ u. IsParsed b u) (sym value_same) (agrees b).1,
              )
        ],
        shown,
        stored,
      )
