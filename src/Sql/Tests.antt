-- ===== src/Sql/Tests.antt =====
-- Statements on concrete tables.
use evesso.Prelude.{◌≡◌, refl, [], ◌∷◌}
use evesso.Sql.{run, delete_profiles, ProfileCond}
use evesso.Sql.Schema.{IsConsistent}
use evesso.Sql.Schema.Keeps.{run-IsConsistent}
use evesso.World.Samples.{rows, rows-IsConsistent, second}

delete_cascades :
    (run (100, 101) (delete_profiles (ProfileCond.id_is 1 ∷ [])) rows).1
    ≡ record { profiles = second ∷ []; pkces = []; characters = [] }
unfolding run
delete_cascades = refl

run-IsConsistent_example :
    IsConsistent (run (100, 101) (delete_profiles (ProfileCond.id_is 1 ∷ [])) rows).1
run-IsConsistent_example =
    run-IsConsistent (100, 101) (delete_profiles (ProfileCond.id_is 1 ∷ [])) rows rows-IsConsistent
