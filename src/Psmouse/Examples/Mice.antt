-- ===== src/Psmouse/Examples/Mice.antt =====
-- An Explorer mouse, which is no more than what it remembers, through the detection of the wheel mice.
use debugging.Common.{◌≡◌, true, [], none, refl, ◌==◌, if◌then◌else◌}
use debugging.Kernel.{Ps2, bytes}
use debugging.Psmouse.Command.{cmd_setrate}
use debugging.Psmouse.Standard.{
  Description, intellimouse, im_explorer, intellimouse_detect, im_explorer_detect,
}
use debugging.Psmouse.Standard.Knock.{
  Kind, Memory, learn, IsMouse, intellimouse_detect-Kind, im_explorer_detect-Kind,
}

abbrev explorer_ps2 : Ps2 Memory
explorer_ps2 = record {
  command = λ d c p.
      if c == cmd_setrate
      then record { device = learn Kind.explorer (p 0) d; code = 0; param = p }
      else record { device = d; code = 0; param = λ i. if i == 0 then d.id else 0 };
  sendbyte = λ d c t. (d, 0);
  uninit = bytes [];
}

explorer_ps2-IsMouse : IsMouse explorer_ps2 Kind.explorer (λ d. d)
explorer_ps2-IsMouse = record { rates = λ d p. refl; identifies = λ d p. (refl, refl) }

abbrev fresh : Memory
fresh = record { id = 0; newer = 0; older = 0 }

abbrev unknown : Description
unknown = record { vendor = none; name = none; pktsize = 3; keys = []; rels = [] }

intellimouse_detect-Kind_example :
    let r = intellimouse_detect explorer_ps2 true fresh unknown in
    (r.code ≡ 0) × (r.description ≡ intellimouse unknown) × (r.device.id ≡ 3)
intellimouse_detect-Kind_example =
    intellimouse_detect-Kind explorer_ps2 Kind.explorer (λ d. d) explorer_ps2-IsMouse fresh unknown
      refl

im_explorer_detect-Kind_example :
    let r = im_explorer_detect explorer_ps2 true fresh unknown in
    (r.code ≡ 0) × (r.description ≡ im_explorer unknown)
im_explorer_detect-Kind_example =
    im_explorer_detect-Kind explorer_ps2 Kind.explorer (λ d. d) explorer_ps2-IsMouse fresh unknown
      refl
