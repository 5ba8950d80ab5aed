-- ===== src/Thinkpad/Fan/Watchdog.antt =====
-- thinkpad_acpi.c: the watchdog, which gives the fan back to the EC when no command has come for its
-- interval.
use debugging.Common.{
  ℕ, ◌*◌, ◌<◌, ◌≡◌, ◌≢◌, ◌⊎◌, inl, inr, true, false, none, some, refl, arith, ltb,
}
use debugging.Thinkpad.{
  Firmware, StatusMode, ControlMode, Lifecycle, FanState, Tp, Result, call, change, look, attempt,
  caught, followed, give, ◌>>=◌,
}
use debugging.Thinkpad.Keeps.{Keeps, keeping}
use debugging.Thinkpad.Ec.{acpi_ec_read, acpi_ec_write}
use debugging.Thinkpad.Fan.{quirk1_handle, status_by, get_status, lock_killable}
use debugging.Thinkpad.Fan.Control.{
  allowed, write_status, call_sfan, enable_by_ec, enable_by, set_enable, reset_by, watchdog_reset,
  watchdog_fire, again, rewatched,
}

-- The settings of the watchdog: the mode of control, the life of the driver, and the interval.
pub record IsWatched {E : Type 0} (mode : ControlMode) (interval : ℕ) (t : Tp E) : Type 0 where
  pub mode_is : t.fan.control_mode ≡ mode
  pub runs : t.fan.lifecycle ≡ Lifecycle.running
  pub interval_is : t.fan.watchdog_maxinterval ≡ interval

-- The driver with no delay pending.
abbrev pub expired : {E : Type 0} → Tp E → Tp E
expired t = record t { fan = record t.fan { watchdog = none } }

module _ {E : Type 0} (fw : Firmware E) (mode : ControlMode) (interval : ℕ) where
  abbrev Set : Tp E → Type 0
  Set = IsWatched mode interval

  call-Keeps : {A : Type 0} (f : E → E × A) → Keeps Set (call f)
  unfolding call
  call-Keeps f = record {
    holds = λ t h. record { mode_is = h.mode_is; runs = h.runs; interval_is = h.interval_is };
  }

  defined-Keeps : Keeps {E = E} Set (change (λ f. record f { ctrl_status_undef = false }))
  unfolding change
  defined-Keeps = record {
    holds = λ t h. record { mode_is = h.mode_is; runs = h.runs; interval_is = h.interval_is };
  }

  acpi_ec_read-Keeps : (i : ℕ) → Keeps Set (acpi_ec_read fw i)
  unfolding acpi_ec_read
  acpi_ec_read-Keeps i = search (keeping, call-Keeps) depth 8

  acpi_ec_write-Keeps : (i v : ℕ) → Keeps Set (acpi_ec_write fw i v)
  unfolding acpi_ec_write
  acpi_ec_write-Keeps i v = search (keeping, call-Keeps) depth 8

  quirk1_handle-Keeps : (s : ℕ) → Keeps {E = E} Set (quirk1_handle s)
  unfolding quirk1_handle
  quirk1_handle-Keeps s = search (keeping, defined-Keeps) depth 8

  status_by-Keeps : (m : StatusMode) → Keeps Set (status_by fw m)
  unfolding status_by
  status_by-Keeps StatusMode.rd_acpi_gfan = search (keeping, call-Keeps) depth 8
  status_by-Keeps StatusMode.rd_tpec =
      search (keeping, acpi_ec_read-Keeps, quirk1_handle-Keeps) depth 8
  status_by-Keeps StatusMode.rd_tpec_ns = search (keeping, acpi_ec_read-Keeps) depth 8
  status_by-Keeps StatusMode.no_status = search keeping

  get_status-Keeps : Keeps Set (get_status fw)
  unfolding get_status
  get_status-Keeps = search (keeping, status_by-Keeps) depth 8

  write_status-Keeps : (v : ℕ) → Keeps Set (write_status fw v)
  unfolding write_status
  write_status-Keeps v = search (keeping, acpi_ec_write-Keeps, defined-Keeps) depth 8

  call_sfan-Keeps : (level : ℕ) → Keeps Set (call_sfan fw level)
  unfolding call_sfan
  call_sfan-Keeps level = search (keeping, call-Keeps) depth 8

  enable_by-Keeps : (m : ControlMode) → Keeps Set (enable_by fw m)
  unfolding enable_by enable_by_ec
  enable_by-Keeps ControlMode.wr_acpi_fans =
      search (keeping, get_status-Keeps, write_status-Keeps) depth 8
  enable_by-Keeps ControlMode.wr_tpec =
      search (keeping, get_status-Keeps, write_status-Keeps) depth 8
  enable_by-Keeps ControlMode.wr_acpi_sfan =
      search (keeping, get_status-Keeps, call_sfan-Keeps) depth 8
  enable_by-Keeps ControlMode.no_control = search keeping

  set_enable-Keeps : Keeps Set (set_enable fw)
  unfolding set_enable allowed lock_killable
  set_enable-Keeps = search (keeping, call-Keeps, enable_by-Keeps) depth 14

  rewatched-lem :
      (f : FanState)
      → f.lifecycle ≡ Lifecycle.running
      → f.watchdog_maxinterval ≡ interval
      → 0 < interval
      → (rewatched fw.msecs_to_jiffies f).watchdog ≡ some (fw.msecs_to_jiffies (interval * 1000))
  rewatched-lem f runs e p =
      let positive : ltb 0 interval ≡ true = ground arith in simp (runs, e, positive) refl

  -- Set again, for the whole interval.
  reset_by-sets :
      (m : ControlMode) (t : Tp E)
      → Set t
      → m ≢ ControlMode.no_control
      → 0 < interval
      → (reset_by fw m t).1.fan.watchdog ≡ some (fw.msecs_to_jiffies (interval * 1000))
  unfolding reset_by change
  reset_by-sets ControlMode.no_control t h ne p = absurd (ne refl)
  reset_by-sets ControlMode.wr_acpi_sfan t h ne p = rewatched-lem t.fan h.runs h.interval_is p
  reset_by-sets ControlMode.wr_acpi_fans t h ne p = rewatched-lem t.fan h.runs h.interval_is p
  reset_by-sets ControlMode.wr_tpec t h ne p = rewatched-lem t.fan h.runs h.interval_is p

  watchdog_reset-sets :
      (t : Tp E)
      → Set t
      → mode ≢ ControlMode.no_control
      → 0 < interval
      → (watchdog_reset fw t).1.fan.watchdog ≡ some (fw.msecs_to_jiffies (interval * 1000))
  unfolding watchdog_reset look ◌>>=◌
  watchdog_reset-sets t h ne p = simp h.mode_is (reset_by-sets mode t h ne p)

  again-sets :
      (r : Result (Unit {0}) × Tp E) (t' : Tp E)
      → t' ≡ (followed (caught r) (again fw)).1
      → Set r.1
      → mode ≢ ControlMode.no_control
      → 0 < interval
      → ((r.0 ≡ Result.done tt) × (t' ≡ r.1))
        ⊎ ((code : ℕ) × (r.0 ≡ Result.failed code)
            × (t'.fan.watchdog ≡ some (fw.msecs_to_jiffies (interval * 1000))))
  unfolding followed caught again give
  again-sets (Result.done u, t) t' e h ne p = inl (refl, e)
  again-sets (Result.failed code, t) t' e h ne p =
      inr (code, refl, rw e (watchdog_reset-sets t h ne p))

  -- When the delay is over while the driver runs, with control of the fan and an interval, either the
  -- fan is given back to the EC by an enable that succeeds, or the enable fails with a code, whatever
  -- it is, and the watchdog is pending again for the whole interval: it is never lost.
  pub watchdog_fire-persists :
      (t : Tp E)
      → IsWatched mode interval t
      → mode ≢ ControlMode.no_control
      → 0 < interval
      → let (result, t₁) = set_enable fw (expired t) in
        let t' = (watchdog_fire fw t).1 in
        ((result ≡ Result.done tt) × (t' ≡ t₁))
        ⊎ ((code : ℕ) × (result ≡ Result.failed code)
            × (t'.fan.watchdog ≡ some (fw.msecs_to_jiffies (interval * 1000))))
  unfolding watchdog_fire change look attempt ◌>>=◌ again followed
  watchdog_fire-persists t h ne p =
      let before : Set (expired t) = record {
        mode_is = h.mode_is;
        runs = h.runs;
        interval_is = h.interval_is;
      } in
      again-sets (set_enable fw (expired t)) (watchdog_fire fw t).1 (simp h.runs refl)
        (set_enable-Keeps.holds (expired t) before) ne p
