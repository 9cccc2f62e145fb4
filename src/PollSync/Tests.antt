-- ===== src/PollSync/Tests.antt =====
-- Runs of the sync options.
use goev.Prelude.{ℕ, ◌≡◌, refl, Option, none, some, List, [], ◌∷◌}
use goev.PollSync.{PollSyncOptArg, p_cache_get, sync_all}

-- The value of 3 is set twice; an option of another type changes nothing.
abbrev options : List (PollSyncOptArg ℕ)
options =
    record { typ = 1; id = 3; value = 10 }
    ∷ record { typ = 2; id = 3; value = 11 }
    ∷ record { typ = 1; id = 3; value = 12 }
    ∷ []

abbrev nothing_cached : ℕ → Option ℕ
nothing_cached id = none

last_run : p_cache_get 3 (sync_all options nothing_cached) ≡ some 12
unfolding p_cache_get sync_all
last_run = refl
