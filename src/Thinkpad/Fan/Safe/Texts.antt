-- ===== src/Thinkpad/Fan/Safe/Texts.antt =====
-- What the commands of the procfs file keep.
use debugging.Common.{
  ℕ, inl, inr, Bool, true, false, Option, none, some, List, [], ◌∷◌, ◌||◌, if◌then◌else◌,
  Bool-cases,
}
use Prim.Native.String.{String}
use debugging.Thinkpad.{Firmware, Commands, Tp, Action}
use debugging.Thinkpad.Keeps.{Keeps, Keeps-bind, keeping}
use debugging.Thinkpad.Fan.Control.{set_level_safe, set_speed}
use debugging.Thinkpad.Fan.Safe.{IsFanSafe}
use debugging.Thinkpad.Fan.Safe.Calls
use debugging.Thinkpad.Fan.Safe.Changes
use debugging.Thinkpad.Fan.Commands.{
  Text, cmd_level, cmd_enable, cmd_disable, cmd_speed, set_interval, cmd_watchdog, or_next,
  supported, dispatch, obey, fan_write,
}

module _ {E : Type 0} (fw : Firmware E) (I : E → Type 0) (safe : IsFanSafe fw I) where
  abbrev At : Tp E → Type 0
  At = Calls.At fw I safe

  -- A command, if the text is one.
  abbrev KeepsIf : Option (Action E (Unit {0})) → Type 0
  KeepsIf none = Unit
  KeepsIf (some m) = Keeps At m

  module _ (text : Text) where
    cmd_level-Keeps : (cmd : String) → KeepsIf (cmd_level fw text cmd)
    unfolding cmd_level
    cmd_level-Keeps cmd =
        let level = Changes.set_level_safe-Keeps fw I safe in
        elim (Bool-cases (text.starts cmd "level auto")) [
          | inl auto ↦ rw auto (level _)
          | inr other ↦
              elim (Bool-cases
                (text.starts cmd "level disengaged" || text.starts cmd "level full-speed")) [
                  | inl full ↦ rw (other, full) (level _)
                  | inr number ↦
                      rw (other, number)
                        (elim (text.scan cmd "level ")
                          as (λ o.
                            KeepsIf
                              (elim o [ none ↦ none | some l ↦ some (set_level_safe fw l) ])) [
                                | none ↦ tt
                                | some l ↦ level l
                              ])
                ]
        ]

    KeepsIf-if :
        (b : Bool) (m : Action E (Unit {0})) → Keeps At m → KeepsIf (if b then some m else none)
    KeepsIf-if true m k = k
    KeepsIf-if false m k = tt

    cmd_enable-Keeps : (cmd : String) → KeepsIf (cmd_enable fw text cmd)
    unfolding cmd_enable
    cmd_enable-Keeps cmd = KeepsIf-if _ _ (Changes.set_enable-Keeps fw I safe)

    cmd_disable-Keeps : (cmd : String) → KeepsIf (cmd_disable fw text cmd)
    unfolding cmd_disable
    cmd_disable-Keeps cmd = KeepsIf-if _ _ (Changes.set_disable-Keeps fw I safe)

    cmd_speed-Keeps : (cmd : String) → KeepsIf (cmd_speed fw text cmd)
    unfolding cmd_speed
    cmd_speed-Keeps cmd =
        elim (text.scan cmd "speed ")
          as (λ o. KeepsIf (elim o [ none ↦ none | some speed ↦ some (set_speed fw speed) ])) [
            | none ↦ tt
            | some speed ↦ Changes.set_speed-Keeps fw I safe speed
          ]

    set_interval-Keeps : (interval : ℕ) → Keeps At (set_interval fw text interval)
    unfolding set_interval
    set_interval-Keeps interval = search (keeping, Calls.change-Keeps) depth 8

    cmd_watchdog-Keeps : (cmd : String) → KeepsIf (cmd_watchdog fw text cmd)
    unfolding cmd_watchdog
    cmd_watchdog-Keeps cmd =
        elim (text.scan cmd "watchdog ")
          as (λ o.
            KeepsIf
              (elim o [ none ↦ none | some interval ↦ some (set_interval fw text interval) ])) [
                | none ↦ tt
                | some interval ↦ set_interval-Keeps interval
              ]

    or_next-Keeps :
        (m n : Option (Action E (Unit {0}))) → KeepsIf m → KeepsIf n → KeepsIf (or_next fw text m n)
    unfolding or_next
    or_next-Keeps (some m) n k l = k
    or_next-Keeps none n k l = l

    supported-Keeps :
        (b : Bool) (m : Option (Action E (Unit {0}))) → KeepsIf m → KeepsIf (supported fw text b m)
    unfolding supported
    supported-Keeps true m k = k
    supported-Keeps false m k = tt

    dispatch-Keeps : (c : Commands) (cmd : String) → KeepsIf (dispatch fw text c cmd)
    unfolding dispatch
    dispatch-Keeps c cmd = or_next-Keeps _ _ (supported-Keeps c.level _ (cmd_level-Keeps cmd)) (
        or_next-Keeps _ _
          (supported-Keeps c.enable _ (
            or_next-Keeps _ _ (cmd_enable-Keeps cmd)
              (or_next-Keeps _ _ (cmd_disable-Keeps cmd) (cmd_watchdog-Keeps cmd))))
          (supported-Keeps c.speed _ (cmd_speed-Keeps cmd)))

    obey-Keeps : (o : Option (Action E (Unit {0}))) → KeepsIf o → Keeps At (obey fw text o)
    unfolding obey
    obey-Keeps none k = search keeping
    obey-Keeps (some m) k = Keeps-bind m _ k (λ _. Changes.watchdog_reset-Keeps fw I safe)

    pub fan_write-Keeps : (cmds : List String) → Keeps At (fan_write fw text cmds)
    unfolding fan_write
    fan_write-Keeps [] = search keeping
    fan_write-Keeps (cmd ∷ rest) = Keeps-bind _ _ (search keeping) (λ c.
        Keeps-bind _ _ (obey-Keeps (dispatch fw text c cmd) (dispatch-Keeps c cmd))
          (λ _. fan_write-Keeps rest))
