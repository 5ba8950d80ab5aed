-- ===== src/Trackpoint/Settings.antt =====
-- `trackpoint_sync` on a documented device: the settings in the device and in the driver.
use debugging.Common.{
  ℕ, ◌^◌, ◌<◌, ◌≤◌, ◌≡◌, ◌≢◌, inl, inr, Bool, true, false, not, List, [], ◌∷◌, bit_and, ◌==◌, ◌||◌,
  if◌then◌else◌, refl, arith, ap, ◌∙◌, sym, Bool-cases,
}
use Prim.Native.Nat.{bit_xor}
use mathlib.Core.Path.{subst}
use debugging.Common.Bits.{bit-pow_self, bit-bit_xor, bit_and-test}
use debugging.Kernel.{Ps2, update}
use debugging.Trackpoint.{Attr, Data, command, power_on_default, make_ps2_cmd, tp_command}
use debugging.Trackpoint.Io.{is_attr_available, read, write, toggle_bit, update_bit}
use debugging.Trackpoint.Sync.{update_attr, update_attrs, sync_order, sync}
use debugging.Trackpoint.Device.{Ram, Holds, IsTrackpoint}

-- The attributes have locations of their own.
attr_at : ℕ → Attr
attr_at l =
    if l == 0x4a
    then Attr.sensitivity
    else if l == 0x60
    then Attr.speed
    else if l == 0x4d
    then Attr.inertia
    else if l == 0x57
    then Attr.reach
    else if l == 0x58
    then Attr.draghys
    else if l == 0x59
    then Attr.mindrag
    else if l == 0x5c
    then Attr.thresh
    else if l == 0x5a
    then Attr.upthresh
    else if l == 0x5e
    then Attr.ztime
    else if l == 0x5d
    then Attr.jenks
    else if l == 0x5f
    then Attr.drift_time
    else if l == 0x2c
    then Attr.press_to_select
    else if l == 0x2d
    then Attr.skipback
    else Attr.ext_dev

attr_at-command : (a : Attr) → attr_at (command a) ≡ a
unfolding attr_at
attr_at-command Attr.sensitivity = refl
attr_at-command _ = refl

pub command-injective : (a b : Attr) → command a ≡ command b → a ≡ b
command-injective a b e = sym (attr_at-command a) ∙ ap attr_at e ∙ attr_at-command b

-- Toggling a bit turns it over.
pub test-toggle :
    (x k : ℕ) → (bit_and (bit_xor x (2 ^ k)) (2 ^ k) == 2 ^ k) ≡ not (bit_and x (2 ^ k) == 2 ^ k)
test-toggle x k =
    bit_and-test (bit_xor x (2 ^ k)) k
    ∙ bit-bit_xor x (2 ^ k) k
    ∙ ground (arith, bit-pow_self k, bit_and-test x k)

module _ {D : Type 0} (ps2 : Ps2 D) (ram : Ram D) (device : IsTrackpoint ps2 ram) where
  -- After `trackpoint_update_bit` the bit is what was asked for, and no other location changed.
  update_bit_lem :
      (loc k v : ℕ) (d : D)
      → 0x20 ≤ loc
      → loc < 0x2f
      → let d' = (update_bit ps2 loc (2 ^ k) v d).0 in
        ((bit_and (ram d' loc) (2 ^ k) == 2 ^ k) ≡ not (v == 0))
        × ((l : ℕ) → l ≢ loc → ram d' l ≡ ram d l)
  unfolding update_bit toggle_bit read
  update_bit_lem loc k v d low high =
      let read = device.reads d (update ps2.uninit 0 loc) (omega arith) in
      let d₁ = (ps2.command d (make_ps2_cmd 1 1 tp_command) (update ps2.uninit 0 loc)).device in
      let toggled = device.toggles d₁ loc (2 ^ k) in
      (
        ground (arith, read.2 loc, test-toggle (ram d loc) k),
        λ l ne. ground (arith, read.2 l, toggled.2 l),
      )

  -- Whether the update of an attribute may be skipped, given the state the device is in.
  abbrev IsFresh : Data → Bool → Attr → D → Type 0
  IsFresh tp power_on a d =
      power_on ≡ true → tp.value a ≡ power_on_default a → Holds ram d a (tp.value a)

  pub write_lem :
      (loc v : ℕ) (d : D)
      → let d' = (write ps2 loc v d).0 in
        (ram d' loc ≡ v) × ((l : ℕ) → l ≢ loc → ram d' l ≡ ram d l)
  unfolding write
  write_lem loc v d = let (code, there, frame) = device.writes d loc v in (there, frame)

  update_attr-Holds :
      (tp : Data) (power_on : Bool) (a : Attr) (d : D)
      → is_attr_available tp a ≡ true
      → IsFresh tp power_on a d
      → Holds ram (update_attr ps2 tp power_on a d) a (tp.value a)
  unfolding update_attr
  update_attr-Holds tp power_on Attr.press_to_select d available fresh =
      ground
        (arith, update_bit_lem 0x2c 0 (tp.value Attr.press_to_select) d (omega arith) (omega arith))
  update_attr-Holds tp power_on Attr.skipback d available fresh =
      ground (arith, update_bit_lem 0x2d 3 (tp.value Attr.skipback) d (omega arith) (omega arith))
  update_attr-Holds tp power_on Attr.ext_dev d available fresh =
      ground (arith, update_bit_lem 0x23 1 (tp.value Attr.ext_dev) d (omega arith) (omega arith))
  update_attr-Holds tp power_on a d available fresh =
      ground (arith, write_lem (command a) (tp.value a) d)

  -- Nothing but the attribute's own location changes.
  update_attr-frame :
      (tp : Data) (power_on : Bool) (a : Attr) (d : D) (l : ℕ)
      → l ≢ command a
      → ram (update_attr ps2 tp power_on a d) l ≡ ram d l
  unfolding update_attr
  update_attr-frame tp power_on Attr.press_to_select d l ne =
      let other =
        (update_bit_lem 0x2c 0 (tp.value Attr.press_to_select) d (omega arith) (omega arith)).1 l
          ne in
      ground arith
  update_attr-frame tp power_on Attr.skipback d l ne =
      let other =
        (update_bit_lem 0x2d 3 (tp.value Attr.skipback) d (omega arith) (omega arith)).1 l ne in
      ground arith
  update_attr-frame tp power_on Attr.ext_dev d l ne =
      let other =
        (update_bit_lem 0x23 1 (tp.value Attr.ext_dev) d (omega arith) (omega arith)).1 l ne in
      ground arith
  update_attr-frame tp power_on a d l ne =
      let other = (write_lem (command a) (tp.value a) d).1 l ne in ground arith

  pub Holds-frame :
      (a : Attr) (v : ℕ) (d d' : D)
      → ram d' (command a) ≡ ram d (command a)
      → Holds ram d a v
      → Holds ram d' a v
  Holds-frame a v d d' e held = rw e held

  -- An update of an attribute that holds, or of another one, keeps what holds.
  update_attr-keeps :
      (tp : Data) (power_on : Bool) (a b : Attr) (d : D)
      → is_attr_available tp b ≡ true
      → Holds ram d b (tp.value b)
      → Holds ram (update_attr ps2 tp power_on a d) b (tp.value b)
  update_attr-keeps tp power_on a b d available held = elim (Bool-cases (command b == command a)) [
    | inl same ↦
        subst (λ c. Holds ram (update_attr ps2 tp power_on c d) b (tp.value b))
          (command-injective b a (ground arith))
          (update_attr-Holds tp power_on b d available (λ _ _. held))
    | inr other ↦
        Holds-frame b (tp.value b) d _
          (update_attr-frame tp power_on a d (command b) (ground arith)) held
  ]

  -- Whether the list has an attribute.
  abbrev occurs : Attr → List Attr → Bool
  occurs b [] = false
  occurs b (a ∷ attrs) = command b == command a || occurs b attrs

  update_attr-IsFresh :
      (tp : Data) (power_on : Bool) (a b : Attr) (d : D)
      → is_attr_available tp b ≡ true
      → IsFresh tp power_on b d
      → IsFresh tp power_on b (update_attr ps2 tp power_on a d)
  update_attr-IsFresh tp power_on a b d available fresh on default =
      update_attr-keeps tp power_on a b d available (fresh on default)

  update_attrs-keeps :
      (tp : Data) (power_on : Bool) (attrs : List Attr) (b : Attr) (d : D)
      → is_attr_available tp b ≡ true
      → Holds ram d b (tp.value b)
      → Holds ram (update_attrs ps2 tp power_on attrs d) b (tp.value b)
  unfolding update_attrs
  update_attrs-keeps tp power_on [] b d available held = held
  update_attrs-keeps tp power_on (a ∷ attrs) b d available held =
      update_attrs-keeps tp power_on attrs b (update_attr ps2 tp power_on a d) available
        (update_attr-keeps tp power_on a b d available held)

  -- Every available attribute of the list is brought to its value.
  update_attrs-Holds :
      (tp : Data) (power_on : Bool) (attrs : List Attr) (b : Attr) (d : D)
      → is_attr_available tp b ≡ true
      → IsFresh tp power_on b d
      → occurs b attrs ≡ true
      → Holds ram (update_attrs ps2 tp power_on attrs d) b (tp.value b)
  unfolding update_attrs
  update_attrs-Holds tp power_on [] b d available fresh there = cc
  update_attrs-Holds tp power_on (a ∷ attrs) b d available fresh there =
      elim (Bool-cases (command b == command a)) [
        | inl same ↦
            subst
              (λ c.
                Holds ram (update_attrs ps2 tp power_on attrs (update_attr ps2 tp power_on c d)) b
                  (tp.value b))
              (command-injective b a (ground arith))
              (update_attrs-keeps tp power_on attrs b (update_attr ps2 tp power_on b d) available
                (update_attr-Holds tp power_on b d available fresh))
        | inr other ↦
            update_attrs-Holds tp power_on attrs b (update_attr ps2 tp power_on a d) available
              (update_attr-IsFresh tp power_on a b d available fresh) (ground arith)
      ]

  sync_order-occurs : (b : Attr) → occurs b sync_order ≡ true
  sync_order-occurs Attr.sensitivity = refl
  sync_order-occurs _ = refl

  -- A sync brings every attribute that the variant has into the device, as it stands in the
  -- driver's data: from any state of the device without a power-on reset before it, and with one if
  -- the device holds the power-on values.
  pub sync-Holds :
      (tp : Data) (in_power_on_state : Bool) (d : D) (a : Attr)
      → is_attr_available tp a ≡ true
      → (in_power_on_state ≡ true → (b : Attr) → Holds ram d b (power_on_default b))
      → Holds ram (sync ps2 tp in_power_on_state d) a (tp.value a)
  unfolding sync
  sync-Holds tp true d a available reset =
      update_attrs-Holds tp true sync_order a d available
        (λ _ default. subst (λ v. Holds ram d a v) (sym default) (reset refl a))
        (sync_order-occurs a)
  sync-Holds tp false d a available reset =
      update_attrs-Holds tp false sync_order a _ available (λ off. cc) (sync_order-occurs a)
