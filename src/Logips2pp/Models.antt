-- ===== src/Logips2pp/Models.antt =====
-- logips2pp.c: the models of Logitech's mice, and what each announces.
use debugging.Common.{
  ℕ, Bool, true, false, Option, none, some, List, [], ◌∷◌, ◌++◌, ◌==◌, if◌then◌else◌,
}
use Prim.Native.String.{String}
use debugging.Kernel.{Button, Axis}
use debugging.Psmouse.Standard.{Description}

-- PS2PP_KIND_*; the kind 0 is `other`.
pub data Kind : Type 0 where
  other wheel_mouse mx tp3 trackman : Kind

-- PS2PP_WHEEL to PS2PP_NAV_BTN, the bits of `features`
pub data Feature : Type 0 where
  wheel hwheel side_btn extra_btn task_btn nav_btn : Feature

-- struct ps2pp_info
pub record Info : Type 0 where
  pub model : ℕ
  pub kind : Kind
  pub features : List Feature

abbrev pub info : ℕ → Kind → List Feature → Info
info model kind features = record { model = model; kind = kind; features = features }

-- `ps2pp_list`
abbrev pub ps2pp_list : List Info
ps2pp_list =
    info 1 Kind.other ([])
    ∷ info 12 Kind.other (Feature.side_btn ∷ [])
    ∷ info 13 Kind.other ([])
    ∷ info 15 Kind.mx (
        Feature.wheel ∷ Feature.side_btn ∷ Feature.task_btn ∷ Feature.extra_btn ∷ Feature.nav_btn
        ∷ Feature.hwheel ∷ [])
    ∷ info 40 Kind.other (Feature.side_btn ∷ [])
    ∷ info 41 Kind.other (Feature.side_btn ∷ [])
    ∷ info 42 Kind.other (Feature.side_btn ∷ [])
    ∷ info 43 Kind.other (Feature.side_btn ∷ [])
    ∷ info 50 Kind.other ([])
    ∷ info 51 Kind.other ([])
    ∷ info 52 Kind.wheel_mouse (Feature.side_btn ∷ Feature.wheel ∷ [])
    ∷ info 53 Kind.wheel_mouse (Feature.wheel ∷ [])
    ∷ info 56 Kind.wheel_mouse (Feature.side_btn ∷ Feature.wheel ∷ [])
    ∷ info 61 Kind.mx (
        Feature.wheel ∷ Feature.side_btn ∷ Feature.task_btn ∷ Feature.extra_btn ∷ Feature.nav_btn
        ∷ [])
    ∷ info 66 Kind.mx (
        Feature.wheel ∷ Feature.side_btn ∷ Feature.task_btn ∷ Feature.extra_btn ∷ Feature.nav_btn
        ∷ Feature.hwheel ∷ [])
    ∷ info 72 Kind.trackman ([])
    ∷ info 73 Kind.trackman (Feature.side_btn ∷ [])
    ∷ info 75 Kind.wheel_mouse (Feature.wheel ∷ [])
    ∷ info 76 Kind.wheel_mouse (Feature.wheel ∷ [])
    ∷ info 79 Kind.trackman (Feature.wheel ∷ [])
    ∷ info 80 Kind.wheel_mouse (Feature.side_btn ∷ Feature.wheel ∷ [])
    ∷ info 81 Kind.wheel_mouse (Feature.wheel ∷ [])
    ∷ info 83 Kind.wheel_mouse (Feature.wheel ∷ [])
    ∷ info 85 Kind.wheel_mouse (Feature.wheel ∷ [])
    ∷ info 86 Kind.wheel_mouse (Feature.wheel ∷ [])
    ∷ info 87 Kind.wheel_mouse (Feature.wheel ∷ [])
    ∷ info 88 Kind.wheel_mouse (Feature.wheel ∷ [])
    ∷ info 96 Kind.other ([])
    ∷ info 97 Kind.tp3 (Feature.wheel ∷ Feature.hwheel ∷ [])
    ∷ info 99 Kind.wheel_mouse (Feature.wheel ∷ [])
    ∷ info 100 Kind.mx (
        Feature.wheel ∷ Feature.side_btn ∷ Feature.task_btn ∷ Feature.extra_btn ∷ Feature.nav_btn
        ∷ [])
    ∷ info 111 Kind.mx (Feature.wheel ∷ Feature.side_btn ∷ [])
    ∷ info 112 Kind.mx (
        Feature.wheel ∷ Feature.side_btn ∷ Feature.task_btn ∷ Feature.extra_btn ∷ Feature.nav_btn
        ∷ [])
    ∷ info 114 Kind.mx
        (Feature.wheel ∷ Feature.side_btn ∷ Feature.task_btn ∷ Feature.extra_btn ∷ [])
    ∷ []

-- The loop of `get_model_info`.
unfoldable pub find_model : ℕ → List Info → Option Info
find_model model [] = none
find_model model (i ∷ rest) =
    let later = find_model model rest in if model == i.model then some i else later

-- `get_model_info`
unfoldable pub get_model_info : ℕ → Option Info
unfolding find_model
get_model_info model = find_model model ps2pp_list

-- `features & f`
abbrev same_feature : Feature → Feature → Bool
same_feature Feature.wheel Feature.wheel = true
same_feature Feature.hwheel Feature.hwheel = true
same_feature Feature.side_btn Feature.side_btn = true
same_feature Feature.extra_btn Feature.extra_btn = true
same_feature Feature.task_btn Feature.task_btn = true
same_feature Feature.nav_btn Feature.nav_btn = true
same_feature _ _ = false

pub has : List Feature → Feature → Bool
has [] f = false
has (g ∷ rest) f = let later = has rest f in if same_feature g f then true else later

-- The name of each kind; only a mouse that speaks PS2++ is called a mouse.
pub named : Kind → Bool → Option String → Option String
named Kind.wheel_mouse using_ps2pp name = some "Wheel Mouse"
named Kind.mx using_ps2pp name = some "MX Mouse"
named Kind.tp3 using_ps2pp name = some "TouchPad 3"
named Kind.trackman using_ps2pp name = some "TrackMan"
named Kind.other using_ps2pp name = if using_ps2pp then some "Mouse" else name

-- `ps2pp_set_model_properties`
unfoldable pub set_model_properties : Info → Bool → Description → Description
unfolding has named
set_model_properties i using_ps2pp s =
    let button : Feature → List Button → List Button =
      λ f bs. if has i.features f then bs else [] in
    let axis : Feature → Axis → List Axis = λ f a. if has i.features f then a ∷ [] else [] in
    record s {
      keys =
          s.keys
          ++ (button Feature.side_btn (Button.side ∷ [])
              ++ (button Feature.extra_btn (Button.extra ∷ [])
                  ++ (button Feature.task_btn (Button.task ∷ [])
                      ++ button Feature.nav_btn (Button.forward ∷ Button.back ∷ []))));
      rels = s.rels ++ (axis Feature.wheel Axis.wheel ++ axis Feature.hwheel Axis.hwheel);
      name = named i.kind using_ps2pp s.name;
    }
