-- ===== src/Psmouse/Table.antt =====
-- psmouse-base.c: the table psmouse_protocols, the searches in it, and the parameter psmouse_maxproto.
-- Which entries are built in is an argument. The detect and init functions are in `Switch.Entry`.
mod Tests
use debugging.Common.{
  ℕ, Bool, true, false, Option, none, some, List, [], ◌∷◌, ◌==◌, ◌&&◌, ◌||◌, if◌then◌else◌,
}
use Prim.Native.Nat.{lt, eq, gt}
use Prim.Native.String.{String, compare}
use debugging.Kernel.{einval}
use debugging.Psmouse.{PsmouseType, Protocol, rank}

-- A protocol with its two names.
pub record Named : Type 0 where
  pub name : String
  pub alias : String
  pub protocol : Protocol

abbrev pub same_text : String → String → Bool
same_text s t = elim (compare s t) [ lt ↦ false | eq ↦ true | gt ↦ false ]

-- An entry without the flags, one that a parameter may choose as a limit and whose parity errors do
-- not count, and one for an SMBus companion.
abbrev special : PsmouseType → String → String → Bool → Named
special type name alias passthru = record {
  name = name;
  alias = alias;
  protocol = record {
    type = type;
    maxproto = false;
    ignore_parity = false;
    try_passthru = passthru;
    smbus_companion = false;
  };
}

abbrev standard : PsmouseType → String → String → Named
standard type name alias = record {
  name = name;
  alias = alias;
  protocol = record {
    type = type;
    maxproto = true;
    ignore_parity = true;
    try_passthru = true;
    smbus_companion = false;
  };
}

abbrev companion : PsmouseType → String → String → Named
companion type name alias = record {
  name = name;
  alias = alias;
  protocol = record {
    type = type;
    maxproto = false;
    ignore_parity = false;
    try_passthru = false;
    smbus_companion = true;
  };
}

-- The first entry, and the last.
abbrev pub bare_entry : Named
bare_entry = standard PsmouseType.ps2 "PS/2" "bare"

abbrev auto_entry : Named
auto_entry = record {
  name = "auto";
  alias = "any";
  protocol = record {
    type = PsmouseType.auto;
    maxproto = true;
    ignore_parity = false;
    try_passthru = false;
    smbus_companion = false;
  };
}

-- psmouse_protocols
abbrev pub psmouse_protocols : List Named
psmouse_protocols =
    bare_entry
    ∷ special PsmouseType.ps2pp "PS2++" "logitech" false
    ∷ special PsmouseType.thinkps "ThinkPS/2" "thinkps" false
    ∷ special PsmouseType.cypress "CyPS/2" "cypress" false
    ∷ special PsmouseType.genps "GenPS/2" "genius" false
    ∷ standard PsmouseType.imps "ImPS/2" "imps"
    ∷ standard PsmouseType.imex "ImExPS/2" "exps"
    ∷ special PsmouseType.synaptics "SynPS/2" "synaptics" false
    ∷ special PsmouseType.synaptics_relative "SynRelPS/2" "synaptics-relative" false
    ∷ companion PsmouseType.synaptics_smbus "SynSMBus" "synaptics-smbus"
    ∷ special PsmouseType.alps "AlpsPS/2" "alps" false
    ∷ special PsmouseType.lifebook "LBPS/2" "lifebook" false
    ∷ special PsmouseType.trackpoint "TPPS/2" "trackpoint" true
    ∷ special PsmouseType.touchkit_ps2 "touchkitPS/2" "touchkit" false
    ∷ special PsmouseType.hgpk "OLPC HGPK" "hgpk" false
    ∷ special PsmouseType.elantech "ETPS/2" "elantech" false
    ∷ companion PsmouseType.elantech_smbus "ETSMBus" "elantech-smbus"
    ∷ special PsmouseType.fsp "FSPPS/2" "fsp" false
    ∷ special PsmouseType.cortron "CortronPS/2" "cortps" false
    ∷ special PsmouseType.focaltech "FocalTechPS/2" "focaltech" false
    ∷ special PsmouseType.vmmouse "VirtualPS/2" "vmmouse" false
    ∷ special PsmouseType.byd "BYDPS/2" "byd" false
    ∷ auto_entry
    ∷ []

-- `psmouse_protocols[i].type == type`
abbrev pub same_type : PsmouseType → PsmouseType → Bool
same_type t u = rank t == rank u

module _ (built_in : PsmouseType → Bool) where
  -- `__psmouse_protocol_by_type` and `psmouse_protocol_by_name`, from an entry on.
  abbrev pub find_type : List Named → PsmouseType → Option Named
  find_type [] type = none
  find_type (e ∷ rest) type =
      let later = find_type rest type in
      if same_type e.protocol.type type && built_in e.protocol.type then some e else later

  abbrev pub find_name : List Named → String → Option Named
  find_name [] name = none
  find_name (e ∷ rest) name =
      let later = find_name rest name in
      if (same_text e.name name || same_text e.alias name) && built_in e.protocol.type
      then some e
      else later

  -- `psmouse_protocol_by_type`
  abbrev pub psmouse_protocol_by_type : PsmouseType → Named
  psmouse_protocol_by_type type = elim (find_type psmouse_protocols type) [
    | none ↦ bare_entry
    | some e ↦ e
  ]

  -- `psmouse_protocol_by_name`
  abbrev pub psmouse_protocol_by_name : String → Option Named
  psmouse_protocol_by_name name = find_name psmouse_protocols name

  -- `psmouse_set_maxproto`: the new parameter, and a code.
  abbrev pub set_maxproto : Option String → ℕ → ℕ × ℕ
  set_maxproto none limit = (limit, einval)
  set_maxproto (some val) limit = elim (psmouse_protocol_by_name val) [
    | none ↦ (limit, einval)
    | some e ↦ if e.protocol.maxproto then (rank e.protocol.type, 0) else (limit, einval)
  ]
