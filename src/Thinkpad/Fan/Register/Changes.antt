-- ===== src/Thinkpad/Fan/Register/Changes.antt =====
-- thinkpad_acpi.c: the fan's reads and changes of the status register.
use debugging.Common.{
  ℕ, ◌<◌, ◌≡◌, ◌⊎◌, inl, inr, Bool, false, Option, none, some, refl, arith, ap, ◌∙◌, ◌==◌, ◌||◌,
  if◌then◌else◌, Bool-cases,
}
use debugging.Kernel.{u8, eio}
use debugging.Thinkpad.{Firmware, Tp, Action, call, change, look, required, give, fail, ◌>>=◌, ◌>>◌}
use debugging.Thinkpad.Gives.{Gives, Gives-bind}
use debugging.Thinkpad.Ec.{acpi_ec_read, acpi_ec_write, byte_of}
use debugging.Thinkpad.Fan.{
  fan_status_offset, is_auto, is_fullspeed, fan_last_level, quirk1_handle, update_desired_level,
  status_by, get_status, get_status_safe, lock_killable,
}
use debugging.Thinkpad.Fan.Control.{
  netted, is_outside, allowed, second_level, write_status, level_by_ec, level_by, set_level,
  set_level_safe,
}
use debugging.Thinkpad.Fan.Register.{IsRegister, IsUnder}

module _ {E : Type 0} (fw : Firmware E) (status : E → ℕ) (reg : IsRegister fw status)
    (s r : ℕ) where
  abbrev pub Under : Tp E → Type 0
  Under = IsUnder status s r

  -- The EC moved, with the register as it was.
  moved : (t : Tp E) (e : E) → Under t → status e ≡ status t.ec → Under (record t { ec = e })
  moved t e h same = record {
    status_is = omega (arith, h.status_is);
    allows = h.allows;
    reads_tpec = h.reads_tpec;
    writes_register = h.writes_register;
    defined = h.defined;
    one_fan = h.one_fan;
    resumes = h.resumes;
  }

  lock_killable-Gives : Gives Under (lock_killable fw) (λ _ t. Under t) Under
  unfolding lock_killable ◌>>=◌ call give fail
  lock_killable-Gives = record {
    ends = λ t h. elim (Bool-cases (fw.lock t.ec).1) [
      | inl locked ↦ rw locked (moved t (fw.lock t.ec).0 h (reg.locks t.ec))
      | inr killed ↦ rw killed (moved t (fw.lock t.ec).0 h (reg.locks t.ec))
    ];
  }

  byte_of-answers :
      (o : Option ℕ) (t : Tp E)
      → Under t
      → (o ≡ none) ⊎ (o ≡ some (status t.ec))
      → (byte_of o ≡ none) ⊎ (byte_of o ≡ some s)
  byte_of-answers o t h (inl e) = inl (rw e refl)
  byte_of-answers o t h (inr e) = inr (rw e (ap some (omega (arith, h.status_is, reg.byte t.ec))))

  read-Gives :
      Gives Under
        (acpi_ec_read fw fan_status_offset)
        (λ v t. Under t × ((v ≡ none) ⊎ (v ≡ some s)))
        Under
  unfolding acpi_ec_read ◌>>=◌ call give
  read-Gives = record {
    ends = λ t h. elim (Bool-cases fw.has_ecrd) [
      | inl ecrd ↦ rw ecrd (
        moved t (fw.ecrd t.ec fan_status_offset).0 h (reg.reads_ecrd t.ec).0,
        byte_of-answers (fw.ecrd t.ec fan_status_offset).1 t h (reg.reads_ecrd t.ec).1,
      )
      | inr kernel ↦ rw kernel (
        moved t (fw.ec_read t.ec fan_status_offset).0 h (reg.reads t.ec).0,
        byte_of-answers (fw.ec_read t.ec fan_status_offset).1 t h (reg.reads t.ec).1,
      )
    ];
  }

  -- What was read, as the status.
  handle-Gives :
      (v : Option ℕ)
      → Gives
          (λ t. Under t × ((v ≡ none) ⊎ (v ≡ some s)))
          (required eio v >>= λ x. quirk1_handle x)
          (λ x t. Under t × (x ≡ s))
          Under
  unfolding required quirk1_handle look give ◌>>=◌
  handle-Gives none = record { ends = λ t h. h.0 }
  handle-Gives (some x) = record {
    ends = λ t h.
        simp h.0.defined (h.0, elim h.1 [ inl e ↦ absurd (ground arith) | inr e ↦ ground arith ]);
  }

  get_status-Gives : Gives Under (get_status fw) (λ x t. Under t × (x ≡ s)) Under
  unfolding get_status status_by look ◌>>=◌
  get_status-Gives = record {
    ends = λ t h. simp h.reads_tpec (
        (Gives-bind Under (acpi_ec_read fw fan_status_offset) _ _ read-Gives handle-Gives).ends t
          h);
  }

  update-Gives : (x : ℕ) → Gives Under (update_desired_level x) (λ _ t. Under t) Under
  unfolding update_desired_level change give
  update-Gives x = record {
    ends = λ t h. elim (Bool-cases (is_auto x || is_fullspeed x)) [
      | inl mode ↦ rw mode h
      | inr level ↦ rw level (record {
        status_is = h.status_is;
        allows = h.allows;
        reads_tpec = h.reads_tpec;
        writes_register = h.writes_register;
        defined = h.defined;
        one_fan = h.one_fan;
        resumes = h.resumes;
      })
    ];
  }

  finish-Gives :
      (x : ℕ)
      → Gives
          (λ t. Under t × (x ≡ s))
          (look (λ f. f) >>= λ f.
            (if f.with_ns_addr then give tt else update_desired_level x) >> give x)
          (λ y t. Under t × (y ≡ s))
          Under
  unfolding look give ◌>>=◌
  finish-Gives x = record {
    ends = λ t h. elim (Bool-cases t.fan.with_ns_addr) [
      | inl ns ↦ simp ns h
      | inr plain ↦ simp plain (
          (Gives-bind Under (update_desired_level x) (λ _. give x) (λ _ t. Under t) (update-Gives x)
              (λ _. record { ends = λ t h'. (h', h.1) })).ends
            t h.0)
    ];
  }

  pub get_status_safe-Gives : Gives Under (get_status_safe fw) (λ x t. Under t × (x ≡ s)) Under
  unfolding get_status_safe
  get_status_safe-Gives =
      Gives-bind Under _ _ _ lock_killable-Gives
        (λ _. Gives-bind Under _ _ _ get_status-Gives finish-Gives)

  second_level-Gives : (m : Action E Bool) → Gives Under (second_level fw m) (λ _ t. Under t) Under
  unfolding second_level look give ◌>>=◌
  second_level-Gives m = record { ends = λ t h. simp h.one_fan h }

  write_status-Gives : (v : ℕ) → Gives Under (write_status fw v) (λ _ t. status t.ec ≡ u8 v) Under
  unfolding write_status acpi_ec_write call change fail ◌>>=◌
  write_status-Gives v = record {
    ends = λ t h. elim (Bool-cases fw.has_ecwr) [
      | inl ecwr ↦
          let w = reg.writes_ecwr t.ec (u8 v) (omega arith) in
          elim (Bool-cases (fw.ecwr t.ec fan_status_offset (u8 v)).1) [
            | inl ok ↦ rw (ecwr, ok) (w ∙ rw ok refl)
            | inr failed ↦
                rw (ecwr, failed)
                  (moved t (fw.ecwr t.ec fan_status_offset (u8 v)).0 h (w ∙ rw failed refl))
          ]
      | inr kernel ↦
          let w = reg.writes t.ec (u8 v) (omega arith) in
          elim (Bool-cases (fw.ec_write t.ec fan_status_offset (u8 v)).1) [
            | inl ok ↦ rw (kernel, ok) (w ∙ rw ok refl)
            | inr failed ↦
                rw (kernel, failed)
                  (moved t (fw.ec_write t.ec fan_status_offset (u8 v)).0 h (w ∙ rw failed refl))
          ]
    ];
  }

  -- The two modes write the register alike.
  level_by_ec-Gives :
      (level : ℕ)
      → is_outside level ≡ false
      → Gives Under (level_by_ec fw level) (λ _ t. status t.ec ≡ u8 (netted level)) Under
  unfolding level_by_ec
  level_by_ec-Gives level inside = rw inside (
      Gives-bind Under (second_level fw _) (λ _. write_status fw (netted level)) (λ _ t. Under t)
        (second_level-Gives _) (λ _. write_status-Gives (netted level)))

  set_level-Gives :
      (level : ℕ)
      → is_outside level ≡ false
      → Gives Under (set_level fw level) (λ _ t. status t.ec ≡ u8 (netted level)) Under
  unfolding set_level allowed level_by look give ◌>>=◌
  set_level-Gives level inside = record {
    ends = λ t h. elim h.writes_register [
      | inl tpec ↦ simp (h.allows, tpec) ((level_by_ec-Gives level inside).ends t h)
      | inr fans ↦ simp (h.allows, fans) ((level_by_ec-Gives level inside).ends t h)
    ];
  }

  update-keeps :
      (x w : ℕ)
      → Gives (λ t. status t.ec ≡ w) (update_desired_level x) (λ _ t. status t.ec ≡ w) Under
  unfolding update_desired_level change give
  update-keeps x w = record {
    ends = λ t h. elim (Bool-cases (is_auto x || is_fullspeed x)) [
      | inl mode ↦ rw mode h
      | inr level ↦ rw level h
    ];
  }

  set_chosen-Gives :
      r < 256
      → is_outside r ≡ false
      → Gives Under
          (look (λ f. f.desired_level) >>= λ last.
            (let chosen = if r == fan_last_level then last else r in
              set_level fw chosen >> update_desired_level (u8 chosen)))
          (λ _ t. status t.ec ≡ u8 (netted r))
          Under
  unfolding look give ◌>>=◌
  set_chosen-Gives small inside = record {
    ends = λ t h.
        let e : (r == fan_last_level) ≡ false = ground arith in
        rw e (
          (Gives-bind Under (set_level fw r) (λ _. update_desired_level (u8 r)) _
              (set_level-Gives r inside) (λ _. update-keeps (u8 r) (u8 (netted r)))).ends
            t h);
  }

  pub set_level_safe-Gives :
      r < 256
      → is_outside r ≡ false
      → Gives Under (set_level_safe fw r) (λ _ t. status t.ec ≡ u8 (netted r)) Under
  unfolding set_level_safe allowed look give ◌>>=◌
  set_level_safe-Gives small inside = record {
    ends = λ t h. simp h.allows (
        (Gives-bind Under (lock_killable fw) _ _ lock_killable-Gives
            (λ _. set_chosen-Gives small inside)).ends
          t h);
  }
