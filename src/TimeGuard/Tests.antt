-- ===== src/TimeGuard/Tests.antt =====
-- The guard of core/time_guard.js over a clock that goes back.
use dash_mno_verify.Prelude.{◌≡◌, List, [], ◌∷◌, true, false, ok}
use dash_mno_verify.TimeGuard.{Kind, Clock, Marks, Event, reads, restarts, first_boot, load, run}
use dash_mno_verify.TimeGuard.Kept.{IsKept, run-keeps}

abbrev clock : Clock
clock = record { has_path = true; epoch_seconds = 7; season_seconds = 90 }

abbrev forth : List Event
forth = reads Kind.epoch 70 true ∷ reads Kind.season 100 true ∷ []

-- A step back whose save fails, a restart, and the same read again.
abbrev back : List Event
back = reads Kind.season 80 false ∷ restarts ∷ reads Kind.season 80 true ∷ restarts ∷ []

run-keeps_example :
    let w = run clock forth first_boot in
    (m : Marks) × (m' : Marks) × (load clock w.file ≡ ok m)
    × (load clock (run clock back w).file ≡ ok m')
    × IsKept m m'
    × IsKept m' (run clock back w).marks
run-keeps_example = run-keeps clock forth back
