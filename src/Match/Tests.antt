-- ===== src/Match/Tests.antt =====
-- Runs of MatchScopes, and its theorems at concrete slices.
use mathlib.Core.List.{Perm}
use native.Mathlib.Decide.{ℕ_discrete}
use evesso.Prelude.{ℕ, ◌≡◌, refl, ◌↔◌, true, false, List, [], ◌∷◌}
use evesso.Match.{match_scopes, elements_match_by_map}
use evesso.Match.Laws.{match_scopes_iff}

abbrev scopes : List ℕ
scopes = 3 ∷ 1 ∷ 3 ∷ []

loop_order : match_scopes ℕ_discrete scopes (1 ∷ 3 ∷ 3 ∷ []) ≡ true
unfolding match_scopes ℕ_discrete
loop_order = refl

loop_multiplicity : match_scopes ℕ_discrete scopes (1 ∷ 1 ∷ 3 ∷ []) ≡ false
unfolding match_scopes ℕ_discrete
loop_multiplicity = refl

map_multiplicity : elements_match_by_map ℕ_discrete scopes (1 ∷ 1 ∷ 3 ∷ []) ≡ false
unfolding match_scopes ℕ_discrete
map_multiplicity = refl

match_scopes_iff_example :
    (match_scopes ℕ_discrete scopes (1 ∷ 3 ∷ 3 ∷ []) ≡ true) ↔ Perm scopes (1 ∷ 3 ∷ 3 ∷ [])
match_scopes_iff_example = match_scopes_iff ℕ_discrete scopes (1 ∷ 3 ∷ 3 ∷ [])
