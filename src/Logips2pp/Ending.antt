-- ===== src/Logips2pp/Ending.antt =====
-- How a `ps2pp_detect` ends.
use debugging.Common.{
  ℕ, ◌≡◌, inl, inr, Bool, true, false, not, Option, none, some, ◌==◌, ◌||◌, refl, arith, Bool-cases,
  if◌then◌else◌,
}
use debugging.Kernel.{Ps2, Bytes}
use debugging.Psmouse.Standard.{Description}
use debugging.Logips2pp.Models.{Info, get_model_info}
use debugging.Logips2pp.Detect.{
  Detection, ps2pp_detect, identify, init_model, model_of, install, setup_protocol, untouched,
  enxio, is_tp3,
}

abbrev named : Description → Description
named s = record s { vendor = some "Logitech" }

module _ {D : Type 0} (ps2 : Ps2 D) (sliced_command : D → ℕ → D × ℕ) (created : ℕ) where
  -- The model in the answer of the mouse, and whether its magic init succeeds.
  abbrev pub model : D → ℕ
  model d = model_of (identify ps2 sliced_command d).1

  abbrev pub speaks : D → Bool
  speaks d =
      let (d₁, param) = identify ps2 sliced_command d in
      (init_model ps2 sliced_command (get_model_info (model d)) d₁ param).1

  -- A mouse without a model or without buttons is not one of Logitech's.
  abbrev pub is_foreign : D → Bool
  is_foreign d = model d == 0 || (identify ps2 sliced_command d).1 1 == 0

  -- The ways of a detection: of a foreign mouse; a probe that sets nothing; of a Logitech mouse
  -- without PS2++; of one with PS2++; and of one where the attribute's file could not be created.
  pub data DetectEnding (d : D) (s : Description) (set : Bool) (r : Detection D) : Type 0 where
    foreign :
        is_foreign d ≡ true
        → r.code ≡ enxio
        → r.description ≡ s
        → r.model ≡ none
        → r.protocol ≡ untouched
        → DetectEnding d s set r
    probed :
        is_foreign d ≡ false
        → set ≡ false
        → r.code ≡ (if speaks d then 0 else enxio)
        → r.description ≡ s
        → r.model ≡ none
        → r.protocol ≡ untouched
        → DetectEnding d s set r
    standard :
        is_foreign d ≡ false
        → set ≡ true
        → speaks d ≡ false
        → r.code ≡ enxio
        → r.model ≡ some (model d)
        → r.protocol ≡ untouched
        → DetectEnding d s set r
    extended :
        (i : Info)
        → is_foreign d ≡ false
        → set ≡ true
        → speaks d ≡ true
        → get_model_info (model d) ≡ some i
        → r.code ≡ 0
        → r.model ≡ some (model d)
        → r.protocol.handler ≡ true
        → r.protocol.functions ≡ not (is_tp3 i.kind)
        → DetectEnding d s set r
    no_file :
        (i : Info)
        → is_foreign d ≡ false
        → set ≡ true
        → speaks d ≡ true
        → get_model_info (model d) ≡ some i
        → is_tp3 i.kind ≡ false
        → (created == 0) ≡ false
        → r.code ≡ created
        → r.description ≡ named s
        → r.model ≡ some (model d)
        → r.protocol.handler ≡ true
        → DetectEnding d s set r

  install-mute : (o : Option Info) → install created o false ≡ (untouched, 0)
  install-mute none = refl
  install-mute (some i) = refl

  -- Only a known model speaks.
  init_model-known :
      (o : Option Info) (d : D) (param : Bytes)
      → (init_model ps2 sliced_command o d param).1 ≡ true
      → (i : Info) × (o ≡ some i)
  unfolding init_model
  init_model-known none d param e = absurd (ground arith)
  init_model-known (some i) d param e = (i, refl)

  speaks-known : (d : D) → speaks d ≡ true → (i : Info) × (get_model_info (model d) ≡ some i)
  speaks-known d e = init_model-known (get_model_info (model d)) _ _ e

  -- A detection ends in one of these ways: a foreign mouse is left as it is; a probe sets nothing and
  -- succeeds exactly if the mouse speaks PS2++; otherwise a mouse that does not speak it gets its
  -- model and no handler and is refused, one that does gets the handler, and the functions unless it
  -- is a Touch Pad 3; and where the attribute's file fails the handler stays installed under the
  -- error.
  pub ps2pp_detect-DetectEnding :
      (set : Bool) (d : D) (s : Description)
      → DetectEnding d s set (ps2pp_detect ps2 sliced_command created set d s)
  unfolding ps2pp_detect setup_protocol
  ps2pp_detect-DetectEnding set d s = elim (Bool-cases (is_foreign d)) [
    | inl away ↦ rw away (DetectEnding.foreign away refl refl refl refl)
    | inr own ↦ elim (Bool-cases set) [
      | inr probe ↦ rw (own, probe) (DetectEnding.probed own refl refl refl refl refl)
      | inl whole ↦ elim (Bool-cases (speaks d)) [
        | inr mute ↦
            rw (own, whole, mute, install-mute (get_model_info (model d)))
              (DetectEnding.standard own refl mute refl refl refl)
        | inl speaking ↦
            let (i, known) = speaks-known d speaking in
            elim (Bool-cases (is_tp3 i.kind)) [
              | inl tp3 ↦
                  rw (own, whole, speaking, known, setup_protocol, tp3)
                    (DetectEnding.extended i own refl speaking known refl refl refl (rw tp3 refl))
              | inr mouse ↦ elim (Bool-cases (created == 0)) [
                | inl made ↦
                    rw (own, whole, speaking, known, setup_protocol, mouse, made)
                      (DetectEnding.extended i own refl speaking known refl refl refl
                        (rw mouse refl))
                | inr fails ↦
                    rw (own, whole, speaking, known, setup_protocol, mouse, fails)
                      (DetectEnding.no_file i own refl speaking known mouse fails refl refl refl
                        refl)
              ]
            ]
      ]
    ]
  ]
