-- ===== src/Kernel/Observe.antt =====
-- What an observer sees of a list of effects: the events of the input layer, and how often a
-- reconnect was requested; or all but the wakeups, which every byte brings.
use debugging.Common.{ℕ, ◌+◌, ◌≡◌, List, [], ◌∷◌, ◌++◌, refl, ap, arith, sym, ◌∙◌}
use debugging.Kernel.{Effect, Input, input, second_input, wakeup, reconnect, queue_resync}

abbrev pub inputs : List Effect → List Input
inputs [] = []
inputs (input e ∷ es) = e ∷ inputs es
inputs (second_input e ∷ es) = inputs es
inputs (wakeup ∷ es) = inputs es
inputs (reconnect ∷ es) = inputs es
inputs (queue_resync ∷ es) = inputs es

abbrev pub reconnects : List Effect → ℕ
reconnects [] = 0
reconnects (input e ∷ es) = reconnects es
reconnects (second_input e ∷ es) = reconnects es
reconnects (wakeup ∷ es) = reconnects es
reconnects (reconnect ∷ es) = reconnects es + 1
reconnects (queue_resync ∷ es) = reconnects es

pub inputs-append : (xs ys : List Effect) → inputs (xs ++ ys) ≡ inputs xs ++ inputs ys
inputs-append [] ys = refl
inputs-append (input e ∷ xs) ys = ap (λ l. e ∷ l) (inputs-append xs ys)
inputs-append (second_input e ∷ xs) ys = inputs-append xs ys
inputs-append (wakeup ∷ xs) ys = inputs-append xs ys
inputs-append (reconnect ∷ xs) ys = inputs-append xs ys
inputs-append (queue_resync ∷ xs) ys = inputs-append xs ys

pub reconnects-append :
    (xs ys : List Effect) → reconnects (xs ++ ys) ≡ reconnects xs + reconnects ys
reconnects-append [] ys = omega arith
reconnects-append (input e ∷ xs) ys = reconnects-append xs ys
reconnects-append (second_input e ∷ xs) ys = reconnects-append xs ys
reconnects-append (wakeup ∷ xs) ys = reconnects-append xs ys
reconnects-append (reconnect ∷ xs) ys = omega (arith, reconnects-append xs ys)
reconnects-append (queue_resync ∷ xs) ys = reconnects-append xs ys

abbrev pub deeds : List Effect → List Effect
deeds [] = []
deeds (input e ∷ es) = input e ∷ deeds es
deeds (second_input e ∷ es) = second_input e ∷ deeds es
deeds (wakeup ∷ es) = deeds es
deeds (reconnect ∷ es) = reconnect ∷ deeds es
deeds (queue_resync ∷ es) = queue_resync ∷ deeds es

pub deeds-append : (xs ys : List Effect) → deeds (xs ++ ys) ≡ deeds xs ++ deeds ys
deeds-append [] ys = refl
deeds-append (input e ∷ xs) ys = ap (λ l. input e ∷ l) (deeds-append xs ys)
deeds-append (second_input e ∷ xs) ys = ap (λ l. second_input e ∷ l) (deeds-append xs ys)
deeds-append (wakeup ∷ xs) ys = deeds-append xs ys
deeds-append (reconnect ∷ xs) ys = ap (λ l. reconnect ∷ l) (deeds-append xs ys)
deeds-append (queue_resync ∷ xs) ys = ap (λ l. queue_resync ∷ l) (deeds-append xs ys)

pub inputs-deeds : (es : List Effect) → inputs (deeds es) ≡ inputs es
inputs-deeds [] = refl
inputs-deeds (input e ∷ es) = ap (λ l. e ∷ l) (inputs-deeds es)
inputs-deeds (second_input e ∷ es) = inputs-deeds es
inputs-deeds (wakeup ∷ es) = inputs-deeds es
inputs-deeds (reconnect ∷ es) = inputs-deeds es
inputs-deeds (queue_resync ∷ es) = inputs-deeds es

-- The events of what was done after `fs`.
pub inputs-after :
    (es fs gs : List Effect) → deeds es ≡ deeds fs ++ gs → inputs es ≡ inputs fs ++ inputs gs
inputs-after es fs gs e =
    sym (inputs-deeds es)
    ∙ ap inputs e
    ∙ inputs-append (deeds fs) gs
    ∙ ap (λ l. l ++ inputs gs) (inputs-deeds fs)
