-- ===== src/Match/Loop.antt =====
-- elementsMatchByLoop in terms of what is not yet visited.
use mathlib.Core.Logic.{if_pos, if_neg}
use mathlib.Core.Logic.Or
use mathlib.Core.List.{
  Mem, Perm, erase, erase-cons-tail, not-mem-nil, mem-cons_of_mem, cons-perm_iff_perm-erase,
  eq-or-mem_of_mem-cons, mem-cons_self,
}
use mathlib.Core.List.Perm
use mathlib.Core.Option
use mathlib.Core.HLevel.{⊥_prop}
use evesso.Prelude.{
  ◌≡◌, refl, sym, ap, ◌∙◌, ◌↔◌, Bool, true, false, none, some, List, [], ◌∷◌, length, replicate,
  if◌then◌else◌, inl, inr, arith, Option-cases, length-erase,
}
use evesso.Match.{mark, mark_all, elements_match_by_loop}

module _ {ℓ} {T : Type ℓ} where
  eq-nil_of_length : (ys : List T) → 0 ≡ length ys → ys ≡ []
  eq-nil_of_length [] e = refl
  eq-nil_of_length (y ∷ ys) e = absurd (omega arith)

  remaining : List T → List Bool → List T
  remaining (y ∷ ys) (v ∷ vs) = if v then remaining ys vs else y ∷ remaining ys vs
  remaining _ _ = []

  remaining_all : (ys : List T) → remaining ys (replicate (length ys) false) ≡ ys
  unfolding remaining
  remaining_all [] = refl
  remaining_all (y ∷ ys) = ap (◌∷◌ y) (remaining_all ys)

module _ {ℓ} {T : Type ℓ} (dec : Discrete T) where
  mark-none :
      (x : T) (ys : List T) (vs : List Bool) → mark dec x ys vs ≡ none → ¬ Mem x (remaining ys vs)
  unfolding mark remaining
  mark-none x [] vs e = not-mem-nil
  mark-none x (y ∷ ys) [] e = not-mem-nil
  mark-none x (y ∷ ys) (true ∷ vs) e = mark-none x ys vs (ground arith)
  mark-none x (y ∷ ys) (false ∷ vs) e = elim (dec x y) [
    | yes p ↦ cc (
        sym (if_pos (dec x y) p (some (true ∷ vs)) (Option.map (◌∷◌ false) (mark dec x ys vs))) ∙ e)
    | no p ↦ λ m. Or.elim ⊥_prop (eq-or-mem_of_mem-cons m) p (mark-none x ys vs (ground arith))
  ]

  mark-some :
      (x : T) (ys : List T) (vs ws : List Bool)
      → mark dec x ys vs ≡ some ws
      → Mem x (remaining ys vs) × (remaining ys ws ≡ erase dec (remaining ys vs) x)
  unfolding mark remaining
  mark-some x [] vs ws e = cc
  mark-some x (y ∷ ys) [] ws e = cc
  mark-some x (y ∷ ys) (true ∷ vs) ws e =
      let (m, found, same) = (Option.map-eq-some_iff _ _).0 e in
      rw (← same) (mark-some x ys vs m found)
  mark-some x (y ∷ ys) (false ∷ vs) ws e = elim (dec x y) [
    | yes p ↦
        let same : true ∷ vs ≡ ws = ground arith in
        rw (← same) (rw p mem-cons_self, sym (if_pos (dec y x) (sym p) _ _))
    | no p ↦
        let (m, found, same) = (Option.map-eq-some_iff _ _).0 (rw (if_neg, p) at e) in
        let (inside, rest) = mark-some x ys vs m found in
        rw (← same)
          (mem-cons_of_mem y inside, ap (◌∷◌ y) rest ∙ sym (erase-cons-tail dec _ (λ q. p (sym q))))
  ]

  mark_all_iff :
      (xs ys : List T) (vs : List Bool)
      → length xs ≡ length (remaining ys vs)
      → (mark_all dec xs ys vs ≡ true) ↔ Perm xs (remaining ys vs)
  unfolding mark_all
  mark_all_iff [] ys vs e = (λ _. rw (eq-nil_of_length _ e) Perm.nil, λ _. refl)
  mark_all_iff (x ∷ xs) ys vs e = elim (Option-cases (mark dec x ys vs)) [
    | inl missing ↦ (
      λ h. cc (rw (missing, mark_all) at h),
      λ p. absurd (mark-none x ys vs missing ((cons-perm_iff_perm-erase dec).0 p).0),
    )
    | inr (ws, found) ↦
        let (inside, rest) = mark-some x ys vs ws found in
        let fewer = length-erase dec x (remaining ys vs) inside in
        let (to, from) = mark_all_iff xs ys ws (omega (arith, ap length rest, fewer)) in
        (
          λ h.
              (cons-perm_iff_perm-erase dec).1
                (inside, rw rest at (to (rw (found, mark_all) at h))),
          λ p. rw (found, mark_all) (from (rw rest ((cons-perm_iff_perm-erase dec).0 p).1)),
        )
  ]

  pub by_loop_iff :
      (xs ys : List T)
      → length xs ≡ length ys
      → (elements_match_by_loop dec xs ys ≡ true) ↔ Perm xs ys
  unfolding elements_match_by_loop
  by_loop_iff xs ys e =
      rw remaining_all at (mark_all_iff xs ys (replicate (length ys) false) (rw remaining_all e))
