-- ===== src/Psmouse/Examples/Connection.antt =====
-- A port that is connected behind a parent, on concrete devices.
use debugging.Common.{ℕ, ◌≡◌, ◌==◌, true, some, none, refl}
use debugging.Psmouse.{Psmouse, PsmouseType, Protocol, State}
use debugging.Psmouse.Command.{poll}
use debugging.Psmouse.Reconnect.{Hooks, default_hooks}
use debugging.Psmouse.Connect.{Answers, Defaults, connect}
use debugging.Psmouse.Connect.Ending.{PortEnding, connect-PortEnding}
use debugging.Psmouse.Examples.{mouse}
use debugging.Psmouse.Examples.Ports.{good_ps2, mouse_probes, wheel_entry}
use debugging.Psmouse.Switch.{Entry}
use debugging.Psmouse.Attributes
use debugging.Psmouse.Attributes.Ending.{Works, IsConsistent, attr_set_helper-Works}

abbrev answers : Answers
answers = record { allocated = true; open_code = 0; register_code = 0 }

abbrev defaults : Defaults
defaults = record { rate = 100; resolution = 200; resetafter = 5; resync_time = 0 }

abbrev generic : PsmouseType → Hooks ℕ ℕ ℕ
generic t = default_hooks good_ps2

abbrev known_protocol : PsmouseType → Protocol
known_protocol t = record mouse.protocol { type = t }

connect-PortEnding_example :
    let r =
      connect good_ps2 good_ps2 generic none none
        (poll good_ps2)
        mouse_probes
        known_protocol
        23
        answers
        defaults
        5
        0
        mouse
        (some mouse) in
    PortEnding r.0 r.1 × ((q' : Psmouse ℕ) × (r.0.parent ≡ some q') × (q'.state ≡ State.activated))
connect-PortEnding_example =
    connect-PortEnding good_ps2 good_ps2 generic none none (poll good_ps2) mouse_probes
      known_protocol 23 (λ d. refl) answers defaults 5 0 mouse mouse

abbrev entries : PsmouseType → Entry ℕ ℕ
entries t = record wheel_entry { protocol = known_protocol t }

-- One child port is left for one round; the registration of the new input device fails.
abbrev refusal : Attributes.Answers ℕ ℕ
refusal = record {
  allocated = true;
  register_code = 12;
  has_children = λ k. k == 0;
  is_ours = λ k. true;
  others = λ k d m. (d, m);
}

attr_set_helper-Works_example :
    let set =
      Attributes.attr_set_protocol good_ps2 good_ps2 generic none none
        (poll good_ps2)
        mouse_probes
        known_protocol
        23
        entries
        refusal
        5
        (some (entries PsmouseType.imps)) in
    let (c, code) =
      Attributes.attr_set_helper good_ps2 good_ps2 generic none none
        (poll good_ps2)
        mouse_probes
        known_protocol
        23
        entries
        0
        true
        true
        set
        5
        0
        mouse
        (some mouse) in
    Works refusal c code
    × IsConsistent refusal c code
    × ((q' : Psmouse ℕ) × (c.parent ≡ some q') × (q'.state ≡ State.activated))
attr_set_helper-Works_example =
    attr_set_helper-Works good_ps2 good_ps2 generic none none (poll good_ps2) mouse_probes
      known_protocol 23 entries (λ d. refl) (λ d. refl) refusal 5 (some (entries PsmouseType.imps))
      0 mouse mouse (λ e. cc)
