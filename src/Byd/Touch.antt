-- ===== src/Byd/Touch.antt =====
-- The end of a touch on a BYD touchpad: the timer against the bytes that come in between.
use debugging.Common.{
  ℕ, ◌+◌, ◌≡◌, ◌⊎◌, inl, inr, false, [], ◌∷◌, ◌++◌, Option, none, some, refl, arith, Bool-cases,
}
use debugging.Common.Int.{pos}
use debugging.Kernel.{Headers, Input, Button, Axis, u64, s32}
use debugging.Kernel.Observe.{inputs, inputs-append}
use debugging.Psmouse.{Psmouse}
use debugging.Psmouse.Receive.{receive_byte}
use debugging.Psmouse.Receive.Kept.{receive_byte-kept}
use debugging.Byd.{
  Data, process_byte, moved, rearmed, pressed, clear_touch, report_input, touch_timeout, finish,
}

-- The time at which the touch ends if no packet comes.
abbrev pub deadline : Headers → Data → ℕ
deadline h s = u64 (s.last_touch_time + touch_timeout h)

-- While there is a touch the timer is set, to the deadline.
abbrev pub IsArmed : Headers → Data → Type 0
IsArmed h s = (s.touch ≡ false) ⊎ (s.timer ≡ some (deadline h s))

-- The next byte comes, or the timer, which is set, expires.
pub data Step (h : Headers) : Psmouse Data → Psmouse Data → Type 0 where
  byte : (now b : ℕ) (m : Psmouse Data) → Step h m (receive_byte h (process_byte h now) now b m)
  expiry : (t : ℕ) (m : Psmouse Data) → m.private.timer ≡ some t → Step h m (clear_touch m)

pub data Run (h : Headers) : Psmouse Data → Psmouse Data → Type 0 where
  done : (m : Psmouse Data) → Run h m m
  more : (m m' m'' : Psmouse Data) → Step h m m' → Run h m' m'' → Run h m m''

rearmed-IsArmed : (h : Headers) (now : ℕ) (s : Data) → IsArmed h (rearmed h now s)
rearmed-IsArmed h now s = elim (Bool-cases s.touch) [
  | inl on ↦ rw on (inr refl)
  | inr off ↦ rw off (inl refl)
]

finish-IsArmed :
    (h : Headers) (now : ℕ) (m : Psmouse Data) (o : Option Data)
    → IsArmed h m.private
    → IsArmed h (finish h now m o).0.private
unfolding finish
finish-IsArmed h now m none r = r
finish-IsArmed h now m (some s) r = rearmed-IsArmed h now (pressed m.packet s)

process_byte-IsArmed :
    (h : Headers) (now : ℕ) (m : Psmouse Data)
    → IsArmed h m.private
    → IsArmed h (process_byte h now m).0.private
unfolding process_byte
process_byte-IsArmed h now m r =
    ground (arith, finish-IsArmed h now m (moved h now m.packet m.private) r)

clear_touch-IsArmed : (h : Headers) (m : Psmouse Data) → IsArmed h (clear_touch m).private
unfolding clear_touch
clear_touch-IsArmed h m = inl refl

Run-IsArmed :
    (h : Headers) (m m' : Psmouse Data) → Run h m m' → IsArmed h m.private → IsArmed h m'.private
Run-IsArmed h _ _ (done m) r = r
Run-IsArmed h _ _ (more m _ m'' (byte now b _) rest) r =
    Run-IsArmed h (receive_byte h (process_byte h now) now b m) m'' rest
      (receive_byte-kept h (process_byte h now) (IsArmed h) (process_byte-IsArmed h now) now b m r)
Run-IsArmed h _ _ (more m _ m'' (expiry t _ e) rest) r =
    Run-IsArmed h (clear_touch m) m'' rest (clear_touch-IsArmed h m)

-- From `m` to `m'` the finger is reported as lifted where it was, with the buttons as they are, and
-- the position moves to the middle of the pad.
pub record Lifts (m m' : Psmouse Data) : Type 0 where
  pub lifted : m'.private.touch ≡ false
  pub told :
      inputs m'.effects
      ≡ inputs m.effects
        ++ Input.key Button.touch false
          ∷ Input.key Button.tool_finger false
          ∷ Input.abs Axis.x (s32 m.private.abs_x)
          ∷ Input.abs Axis.y (s32 m.private.abs_y)
          ∷ Input.key Button.left m.private.btn_left
          ∷ Input.key Button.right m.private.btn_right
          ∷ Input.sync
          ∷ []
  pub middle_x : s32 m'.private.abs_x ≡ pos 5632
  pub middle_y : s32 m'.private.abs_y ≡ pos 3328

clear_touch-Lifts : (m : Psmouse Data) → Lifts m (clear_touch m)
unfolding clear_touch report_input
clear_touch-Lifts m = record {
  lifted = refl;
  told = inputs-append m.effects _;
  middle_x = refl;
  middle_y = refl;
}

-- After any run of bytes and of expiries of the timer, from data without a touch or with the timer
-- set to its deadline, either there is no touch, or the timer is set to 64 milliseconds after the
-- last packet of the touch, and its expiry is a step that ends the touch, reports the finger as
-- lifted at the position it had, with the buttons as they are, and moves the position to the middle
-- of the pad.
pub Run-Lifts :
    (h : Headers) (m m' : Psmouse Data)
    → Run h m m'
    → IsArmed h m.private
    → (m'.private.touch ≡ false)
      ⊎ ((m'.private.timer ≡ some (deadline h m'.private))
          × ((m'' : Psmouse Data) × Step h m' m'' × Lifts m' m''))
Run-Lifts h m m' run r = elim (Run-IsArmed h m m' run r) [
  | inl off ↦ inl off
  | inr armed ↦
      inr (
        armed,
        (clear_touch m', Step.expiry (deadline h m'.private) m' armed, clear_touch-Lifts m'),
      )
]
