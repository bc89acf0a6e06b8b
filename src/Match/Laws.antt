-- ===== src/Match/Laws.antt =====
-- What MatchScopes decides.
use mathlib.Core.List.{Perm}
use evesso.Prelude.{
  ◌≡◌, ◌↔◌, ◌==◌, ==_iff, true, List, length, inl, inr, ltb, arith, Bool-cases, perm_iff_counts,
  length-perm,
}
use evesso.Match.{match_scopes, elements_match_by_map, elements_match_by_loop}
use evesso.Match.Loop.{by_loop_iff}
use evesso.Match.Tally.{by_map_iff}

module _ {T : Type 0} (dec : Discrete T) where
  -- The map version answers true exactly on permutations, whatever the lengths.
  pub by_map-perm : (x y : List T) → (elements_match_by_map dec x y ≡ true) ↔ Perm x y
  by_map-perm x y =
      let (to, from) = by_map_iff dec x y in
      let (counts, perm) = perm_iff_counts dec x y in (λ e. perm (to e), λ p. from (counts p))

  -- For slices of the same length the nested loops and the map give the same answer.
  pub by_loop-eq-by_map :
      (x y : List T)
      → length x ≡ length y
      → elements_match_by_loop dec x y ≡ elements_match_by_map dec x y
  by_loop-eq-by_map x y e =
      let (l, l') = by_loop_iff dec x y e in
      let (m, m') = by_map-perm x y in
      ground (
        arith,
        λ (h : elements_match_by_loop dec x y ≡ true). m' (l h),
        λ (h : elements_match_by_map dec x y ≡ true). l' (m h),
      )

  -- MatchScopes answers true exactly when its arguments hold the same elements equally often, in
  -- any order; the length at which it changes from loops to a map does not matter.
  pub match_scopes_iff : (x y : List T) → (match_scopes dec x y ≡ true) ↔ Perm x y
  unfolding match_scopes
  match_scopes_iff x y = elim (Bool-cases (length x == length y)) [
    | inl same ↦
        let loop = by_loop_iff dec x y ((==_iff _ _).0 same) in
        let tally = by_map-perm x y in
        elim (Bool-cases (ltb 20 (length x))) [
          | inl long ↦ rw (same, long) tally
          | inr short ↦ rw (same, short) loop
        ]
    | inr other ↦ (λ e. cc (rw other at e), λ p. cc ((==_iff _ _).1 (length-perm dec x y p), other))
  ]
