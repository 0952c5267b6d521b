-- ===== src/Tests/Callbacks.antt =====
-- A history of close callbacks.
use getty.Common.{◌≡◌, some, List, [], ◌∷◌, length}
use getty.Callbacks.{nil, comparable, incomparable, Callbacks, empty, invoke, len}
use getty.Callbacks.Refine.{functions}
use getty.Callbacks.Histories.{Call, adds, removes, run, run_entries, run-refines}

-- Three registrations, one of them replaced, the last one removed, and another one behind it.
abbrev history : List Call
history =
    adds (comparable 1) (comparable 1) (some 10)
    ∷ adds (comparable 1) nil (some 11)
    ∷ adds (comparable 2) nil (some 12)
    ∷ adds (comparable 1) (comparable 1) (some 13)
    ∷ adds (incomparable 5) nil (some 14)
    ∷ removes (comparable 2) nil
    ∷ adds (comparable 3) nil (some 15)
    ∷ []

run-refines_example :
    (t : Callbacks) × (run history empty ≡ some t)
    × (invoke t ≡ some (functions (run_entries history [])))
    × (len t ≡ length (run_entries history []))
run-refines_example = run-refines history
