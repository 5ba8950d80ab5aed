-- ===== src/Psmouse/Standard/Knock.antt =====
-- The wheel mice, which show themselves after three sample rates in a row: the detection against a
-- mouse that does as their documentation says.
use debugging.Common.{ℕ, ◌≡◌, true, List, [], ◌∷◌, refl, arith, ◌==◌, ◌&&◌, if◌then◌else◌}
use debugging.Kernel.{Ps2, Bytes, update, enodev}
use debugging.Psmouse.Command.{cmd_getid, cmd_setrate}
use debugging.Psmouse.Standard.{
  Description, send, knock, intellimouse, im_explorer, intellimouse_detect, im_explorer_detect,
}

-- The kinds of mice by what they do on the rates.
pub data Kind : Type 0 where
  plain wheel explorer : Kind

-- What a mouse remembers: its identifier, and the last two rates.
pub record Memory : Type 0 where
  pub id : ℕ
  pub newer : ℕ
  pub older : ℕ

-- The rates 200, 100, 80 make a wheel mouse an IntelliMouse, with the identifier 3, and 200, 200, 80
-- make that an Explorer, with the identifier 4, if it can be one.
abbrev pub learn : Kind → ℕ → Memory → Memory
learn Kind.plain rate m = record { id = m.id; newer = rate; older = m.newer }
learn Kind.wheel rate m = record {
  id = if m.older == 200 && (m.newer == 100 && rate == 80) then 3 else m.id;
  newer = rate;
  older = m.newer;
}
learn Kind.explorer rate m = record {
  id =
      if m.older == 200 && (m.newer == 100 && rate == 80)
      then 3
      else if m.id == 3 && (m.older == 200 && (m.newer == 200 && rate == 80))
      then 4
      else m.id;
  newer = rate;
  older = m.newer;
}

pub record IsMouse {D : Type 0} (ps2 : Ps2 D) (kind : Kind) (memory : D → Memory) : Type 0 where
  pub rates :
      (d : D) (param : Bytes)
      → memory (ps2.command d cmd_setrate param).device ≡ learn kind (param 0) (memory d)
  pub identifies :
      (d : D) (param : Bytes)
      → let r = ps2.command d cmd_getid param in
        (r.param 0 ≡ (memory d).id) × (memory r.device ≡ memory d)

abbrev learned : Kind → List ℕ → Memory → Memory
learned kind [] m = m
learned kind (rate ∷ rates) m = learned kind rates (learn kind rate m)

module _ {D : Type 0} (ps2 : Ps2 D) (kind : Kind) (memory : D → Memory)
    (mouse : IsMouse ps2 kind memory) where
  knock-learned :
      (rates : List ℕ) (s : D × Bytes)
      → memory (knock ps2 rates s).0 ≡ learned kind rates (memory s.0)
  unfolding knock
  knock-learned [] s = refl
  knock-learned (rate ∷ rates) (d, param) =
      rw
        (
          knock-learned rates (send ps2 cmd_setrate (d, update param 0 rate)),
          mouse.rates d (update param 0 rate),
        )
        refl

-- The identifier after the detection of an IntelliMouse, and after that of an Explorer.
abbrev pub wheel_id : Kind → ℕ
wheel_id Kind.plain = 0
wheel_id Kind.wheel = 3
wheel_id Kind.explorer = 3

abbrev pub explorer_id : Kind → ℕ
explorer_id Kind.plain = 0
explorer_id Kind.wheel = 3
explorer_id Kind.explorer = 4

learned-wheel_id :
    (kind : Kind) (m : Memory)
    → m.id ≡ 0
    → (learned kind (200 ∷ 100 ∷ 80 ∷ []) m).id ≡ wheel_id kind
learned-wheel_id Kind.plain m e = e
learned-wheel_id Kind.wheel m e = refl
learned-wheel_id Kind.explorer m e = refl

learned-explorer_id :
    (kind : Kind) (m : Memory)
    → m.id ≡ wheel_id kind
    → (learned kind (200 ∷ 200 ∷ 80 ∷ []) m).id ≡ explorer_id kind
learned-explorer_id Kind.plain m e = e
learned-explorer_id Kind.wheel m e = ground arith
learned-explorer_id Kind.explorer m e = ground arith

module _ {D : Type 0} (ps2 : Ps2 D) (kind : Kind) (memory : D → Memory)
    (mouse : IsMouse ps2 kind memory) where
  -- What the query for the identifier gives after the first knock, and after both.
  abbrev wheel_query : D → D × Bytes
  wheel_query d = knock ps2 (200 ∷ 100 ∷ 80 ∷ []) (d, ps2.uninit)

  wheel_query-id : (d : D) → (memory d).id ≡ 0 → (memory (wheel_query d).0).id ≡ wheel_id kind
  wheel_query-id d fresh =
      rw (knock-learned ps2 kind memory mouse (200 ∷ 100 ∷ 80 ∷ []) (d, ps2.uninit))
        (learned-wheel_id kind (memory d) fresh)

  explorer_query-id :
      (d : D) (param : Bytes)
      → (memory d).id ≡ wheel_id kind
      → (memory (knock ps2 (200 ∷ 200 ∷ 80 ∷ []) (d, param)).0).id ≡ explorer_id kind
  explorer_query-id d param known =
      rw (knock-learned ps2 kind memory mouse (200 ∷ 200 ∷ 80 ∷ []) (d, param))
        (learned-explorer_id kind (memory d) known)

  -- A freshly reset mouse is detected as an IntelliMouse exactly if it can be one, and described as
  -- one exactly then; it has the identifier of its kind afterwards.
  pub intellimouse_detect-Kind :
      (d : D) (s : Description)
      → (memory d).id ≡ 0
      → let r = intellimouse_detect ps2 true d s in
        (r.code ≡ (if wheel_id kind == 3 then 0 else enodev))
        × (r.description ≡ (if wheel_id kind == 3 then intellimouse s else s))
        × ((memory r.device).id ≡ wheel_id kind)
  unfolding intellimouse_detect
  intellimouse_detect-Kind d s fresh =
      let (answer, kept) = mouse.identifies (wheel_query d).0 (wheel_query d).1 in
      rw (answer, kept, wheel_query-id d fresh) (refl, refl, refl)

  -- A freshly reset mouse is detected as an IntelliMouse Explorer exactly if it can be one, and
  -- described as one exactly then: the knock of the IntelliMouse that comes first does not count as
  -- one, and leaves the description alone.
  pub im_explorer_detect-Kind :
      (d : D) (s : Description)
      → (memory d).id ≡ 0
      → let r = im_explorer_detect ps2 true d s in
        (r.code ≡ (if explorer_id kind == 4 then 0 else enodev))
        × (r.description ≡ (if explorer_id kind == 4 then im_explorer s else s))
  unfolding im_explorer_detect intellimouse_detect
  im_explorer_detect-Kind d s fresh =
      let (_, kept) = mouse.identifies (wheel_query d).0 (wheel_query d).1 in
      let start = (ps2.command (wheel_query d).0 cmd_getid (wheel_query d).1).device in
      let known : (memory start).id ≡ wheel_id kind = rw kept (wheel_query-id d fresh) in
      let query = knock ps2 (200 ∷ 200 ∷ 80 ∷ []) (start, ps2.uninit) in
      let (answer, _) = mouse.identifies query.0 query.1 in
      rw (answer, explorer_query-id start ps2.uninit known) (refl, ground arith)
