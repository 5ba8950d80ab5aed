-- ===== src/Thinkpad/Fan/Resume.antt =====
-- thinkpad_acpi.c: a resume against such a firmware.
use debugging.Common.{
  ℕ, ◌≤◌, ◌<◌, ◌≡◌, ◌⊎◌, inl, inr, true, false, not, Option, none, some, bit_or, refl, sym, arith,
  ◌∙◌, ◌==◌, ◌||◌, if◌then◌else◌, Bool-cases,
}
use debugging.Common.Bits.{bit, bit-bit_or}
use debugging.Kernel.{u8}
use debugging.Thinkpad.{Firmware, ControlMode, Tp, Result, change, look, attempt, give, ◌>>=◌, ◌>>◌}
use debugging.Thinkpad.Gives.{Gives, Ends, Gives-bind, Gives-attempt}
use debugging.Thinkpad.Fan.Register.{IsRegister, IsUnder, slowest, fastest}
use debugging.Thinkpad.Fan.Register.Changes.{get_status_safe-Gives, set_level_safe-Gives}
use debugging.Thinkpad.Fan.{is_fullspeed, get_status_safe}
use debugging.Thinkpad.Fan.Control.{netted, is_outside, set_level_safe}
use debugging.Thinkpad.Fan.Power.{is_restored, restore, fan_resume}

module _ {E : Type 0} (fw : Firmware E) (status : E → ℕ) (reg : IsRegister fw status)
    (s r : ℕ) where
  -- The register is as it was, or at a status that is not slower.
  abbrev Fast : Tp E → Type 0
  Fast t = (status t.ec ≡ s) ⊎ (fastest s ≤ slowest (status t.ec))

  Under-Fast : (t : Tp E) → (IsUnder status s r) t → Fast t
  Under-Fast t h = inl h.status_is

  fastest-max : (x : ℕ) → fastest x ≤ 8
  fastest-max x = ground arith

  u8-full : (x : ℕ) → bit x 6 ≡ true → bit (u8 x) 6 ≡ true
  u8-full x h = ground arith

  faster :
      r < 256 → is_restored ControlMode.wr_tpec r s ≡ true → fastest s ≤ slowest (u8 (netted r))
  faster small restored = elim (Bool-cases (is_fullspeed r)) [
    | inl full ↦
        let b : bit (u8 (bit_or r 7)) 6 ≡ true =
          u8-full (bit_or r 7) (bit-bit_or r 7 6 ∙ ground arith) in
        rw (full, b) (fastest-max s)
    | inr level ↦ let e : r ≡ 7 = ground arith in rw e (ground arith)
  ]

  is_restored-rw :
      {c : ControlMode} {level x : ℕ}
      → (c ≡ ControlMode.wr_tpec) ⊎ (c ≡ ControlMode.wr_acpi_fans)
      → level ≡ r
      → x ≡ s
      → is_restored c level x ≡ is_restored ControlMode.wr_tpec r s
  is_restored-rw (inl c) level x = rw (c, level, x) refl
  is_restored-rw (inr c) level x = rw (c, level, x) refl

  level-Gives :
      (level : ℕ)
      → level ≡ r
      → r < 256
      → is_outside r ≡ false
      → fastest s ≤ slowest (u8 (netted r))
      → Gives
          (IsUnder status s r)
          (attempt (set_level_safe fw level) >> give tt)
          (λ _ t. Fast t)
          (IsUnder status s r)
  unfolding give
  level-Gives level e small inside f = rw e (
      Gives-bind (IsUnder status s r) (attempt (set_level_safe fw r)) _ (λ _ t. Fast t)
        (Gives-attempt (IsUnder status s r) (set_level_safe fw r) _ _
          (set_level_safe-Gives fw status reg s r small inside) (λ _ t h. inr (rw h f)) Under-Fast)
        (λ _. record { ends = λ t h. h }))

  restore-Gives :
      (o : Option ℕ)
      → r < 256
      → is_outside r ≡ false
      → Gives
          (λ t. (IsUnder status s r) t × ((o ≡ none) ⊎ (o ≡ some s)))
          (restore fw o)
          (λ _ t. Fast t)
          (IsUnder status s r)
  unfolding restore look give ◌>>=◌
  restore-Gives none small inside = record { ends = λ t h. Under-Fast t h.0 }
  restore-Gives (some x) small inside = record {
    ends = λ t h.
        let e : x ≡ s = elim h.1 [ inl e ↦ absurd (ground arith) | inr e ↦ ground arith ] in
        elim (Bool-cases (is_restored t.fan.control_mode t.fan.resume_level x)) [
          | inl restored ↦ rw restored (
              (level-Gives t.fan.resume_level h.0.resumes small inside (
                  faster small
                    (sym (is_restored-rw h.0.writes_register h.0.resumes e) ∙ restored))).ends
                t h.0)
          | inr kept ↦ rw kept (Under-Fast t h.0)
        ];
  }

  Ends-both :
      {A : Type 0} (x : Result A × Tp E) → Ends (λ _ t. Fast t) (IsUnder status s r) x → Fast x.1
  Ends-both (Result.done a, t) h = h
  Ends-both (Result.failed code, t) h = Under-Fast t h

  awake-Gives :
      Gives
        (IsUnder status s r)
        (attempt (get_status_safe fw))
        (λ o t. (IsUnder status s r) t × ((o ≡ none) ⊎ (o ≡ some s)))
        (IsUnder status s r)
  awake-Gives =
      Gives-attempt (IsUnder status s r) (get_status_safe fw) _ _
        (get_status_safe-Gives fw status reg s r) (λ x t h. (h.0, inr (rw h.1 refl)))
        (λ t h. (h, inl refl))

  clear-Gives :
      Gives
        (IsUnder status s r)
        (change {E = E} (λ f. record f { ctrl_status_undef = false }))
        (λ _ t. (IsUnder status s r) t)
        (IsUnder status s r)
  unfolding change
  clear-Gives = record {
    ends = λ t h. record {
      status_is = h.status_is;
      allows = h.allows;
      reads_tpec = h.reads_tpec;
      writes_register = h.writes_register;
      defined = refl;
      one_fan = h.one_fan;
      resumes = h.resumes;
    };
  }

  wake-Gives :
      r < 256
      → is_outside r ≡ false
      → Gives
          (IsUnder status s r)
          (look (λ f. f) >>= λ f.
            (if not f.control_allowed || f.resume_level == 0
              then give tt
              else (attempt (get_status_safe fw) >>= restore fw)))
          (λ _ t. Fast t)
          (IsUnder status s r)
  unfolding look give ◌>>=◌
  wake-Gives small inside = record {
    ends = λ t h. elim (Bool-cases (not t.fan.control_allowed || t.fan.resume_level == 0)) [
      | inl asleep ↦ rw asleep (Under-Fast t h)
      | inr awake ↦ rw awake (
          (Gives-bind (IsUnder status s r) (attempt (get_status_safe fw)) (restore fw) _ awake-Gives
              (λ o. restore-Gives o small inside)).ends
            t h)
    ];
  }

  resume-Gives :
      r < 256
      → is_outside r ≡ false
      → Gives (IsUnder status s r) (fan_resume fw) (λ _ t. Fast t) (IsUnder status s r)
  unfolding fan_resume
  resume-Gives small inside =
      Gives-bind (IsUnder status s r) _ _ (λ _ t. (IsUnder status s r) t) clear-Gives
        (λ _. wake-Gives small inside)

  -- After a resume with `thinkpad_acpi` in control of one fan, whose status it reads from the EC's
  -- register, as one that is defined, and whose level it writes there (the modes TPEC and FANS), by the
  -- kernel's functions or by ECRD and ECWR: whatever the reads and the writes of the EC come to, and
  -- whether or not the lock is got, the register is as the firmware had set it, or at a status whose
  -- least speed is not below the greatest that the firmware's status stands for, so that level 7 is
  -- not replaced by the automatic mode, nor full speed by anything else. (The level of the suspend is
  -- one that `fan_set_level` takes.)
  pub fan_resume-faster :
      (t : Tp E)
      → (IsUnder status s r) t
      → r < 256
      → is_outside r ≡ false
      → let s' = status (fan_resume fw t).1.ec in (s' ≡ s) ⊎ (fastest s ≤ slowest s')
  fan_resume-faster t h small inside =
      Ends-both (fan_resume fw t) ((resume-Gives small inside).ends t h)
