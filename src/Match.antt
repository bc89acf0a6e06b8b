-- ===== src/Match.antt =====
-- MatchScopes, elementsMatchByLoop and elementsMatchByMap of DataStore.go: do two slices hold the
-- same elements, in any order. `[T comparable]` is a type with a decidable equality.
pub mod Loop
pub mod Tally
pub mod Laws
mod Tests
use mathlib.Core.Logic.{ite}
use evesso.Prelude.{
  ℕ, zero, suc, ◌+◌, ◌-◌, ◌==◌, Bool, true, false, Option, none, some, List, [], ◌∷◌, length,
  replicate, ltb, if◌then◌else◌, not,
}
use mathlib.Core.Option

module _ {ℓ} {T : Type ℓ} (dec : Discrete T) where
  -- The inner loop: the first element of `y` that is not visited and equals `element` is marked.
  -- `none` is `found == false`.
  pub mark : T → List T → List Bool → Option (List Bool)
  mark element (y ∷ ys) (v ∷ visited) =
      let rest = Option.map (◌∷◌ v) (mark element ys visited) in
      if v then rest else ite (dec element y) (some (true ∷ visited)) rest
  mark element _ _ = none

  -- The outer loop.
  pub mark_all : List T → List T → List Bool → Bool
  mark_all [] y visited = true
  mark_all (element ∷ x) y visited = elim (mark element y visited) [
    | none ↦ false
    | some marked ↦ mark_all x y marked
  ]

  unfoldable pub elements_match_by_loop : List T → List T → Bool
  unfolding mark mark_all
  elements_match_by_loop x y = mark_all x y (replicate (length y) false)

  -- A Go map from T to int, which holds each key once.
  pub get : T → List (T × ℕ) → Option ℕ
  get k [] = none
  get k ((j, n) ∷ m) = ite (dec j k) (some n) (get k m)

  pub put : T → ℕ → List (T × ℕ) → List (T × ℕ)
  put k n [] = (k, n) ∷ []
  put k n ((j, o) ∷ m) = ite (dec j k) ((k, n) ∷ m) ((j, o) ∷ put k n m)

  -- `delete(m, k)`
  pub delete : T → List (T × ℕ) → List (T × ℕ)
  delete k [] = []
  delete k ((j, n) ∷ m) = let rest = delete k m in ite (dec j k) rest ((j, n) ∷ rest)

  -- The first loop of elementsMatchByMap; a missing key counts as 0.
  pub tally : List T → List (T × ℕ) → List (T × ℕ)
  tally [] diff = diff
  tally (x ∷ xs) diff = tally xs (put x (Option.get_or (get x diff) 0 + 1) diff)

  -- The second loop and the final test. The counts are at least 1, so `- 1` is exact.
  pub drain : List T → List (T × ℕ) → Bool
  drain [] diff = length diff == 0
  drain (y ∷ ys) diff = elim (get y diff) [
    | none ↦ false
    | some n ↦
        let lowered = put y (n - 1) diff in
        drain ys (if n - 1 == 0 then delete y lowered else lowered)
  ]

  unfoldable pub elements_match_by_map : List T → List T → Bool
  unfolding get put delete tally drain
  elements_match_by_map x y = drain y (tally x [])

  unfoldable pub match_scopes : List T → List T → Bool
  unfolding elements_match_by_loop elements_match_by_map
  match_scopes x y =
      if not (length x == length y)
      then false
      else if ltb 20 (length x)
      then elements_match_by_map x y
      else elements_match_by_loop x y
