-- ===== src/Prelude/Lists.antt =====
-- Lists measured by native numbers, and counts over a decidable equality.
use Prim.Native.Nat.{ℕ, zero, suc, ◌+◌}
use mathlib.Core.Path.{◌≡◌, refl, sym, ap, ◌∙◌}
use mathlib.Core.Logic.{◌↔◌, ite, if_pos, if_neg}
use mathlib.Core.List as Library
use mathlib.Core.List.Perm
use mathlib.Core.List.{
  List, [], ◌∷◌, ◌++◌, Mem, Perm, perm_iff_count, erase, erase-cons-head, erase-cons-tail, mem-cons,
  not-mem-nil, cons-perm_iff_perm-erase,
}
use mathlib.Core.Logic.Or
use mathlib.Core.Logic.{∥∥₁_prop}
use mathlib.Core.Bool.{Bool, true, false, ◌&&◌, ◌||◌, not}
use evesso.Prelude.Tests.{if◌then◌else◌}
use mathlib.Core.Option.{Option, none, some}
use native.Mathlib.Bridge.{from_ℕ, to_ℕ, to_ℕ-from_ℕ}
use native.Mathlib.Omega.{arith}

module _ {ℓ} {A : Type ℓ} where
  abbrev pub length : List A → ℕ
  length [] = 0
  length (x ∷ xs) = suc (length xs)

  abbrev pub replicate : ℕ → A → List A
  replicate zero a = []
  replicate (suc n) a = a ∷ replicate n a

  pub length-append : (xs ys : List A) → length (xs ++ ys) ≡ length xs + length ys
  length-append [] ys = omega arith
  length-append (x ∷ xs) ys = omega (arith, length-append xs ys)

module _ {ℓ} {A : Type ℓ} (dec : Discrete A) where
  abbrev pub count : A → List A → ℕ
  count a [] = 0
  count a (x ∷ xs) = ite (dec x a) (suc (count a xs)) (count a xs)

  count-library : (a : A) (xs : List A) → from_ℕ (Library.count dec a xs) ≡ count a xs
  count-library a [] = refl
  count-library a (x ∷ xs) = elim (dec x a) [
    | yes p ↦ simp (if_pos, p) (ap suc (count-library a xs))
    | no p ↦ simp (if_neg, p) (count-library a xs)
  ]

  pub length-erase : (a : A) (xs : List A) → Mem a xs → suc (length (erase dec xs a)) ≡ length xs
  length-erase a [] m = absurd (not-mem-nil m)
  length-erase a (x ∷ xs) m = elim (dec x a) [
    | yes p ↦ rw p (ap (λ l. suc (length l)) (erase-cons-head dec a xs))
    | no p ↦
        ap (λ l. suc (length l)) (erase-cons-tail dec xs p)
        ∙ ap suc
            (length-erase a xs (Or.elim ∥∥₁_prop (mem-cons.0 m) (λ e. absurd (p (sym e))) (λ r. r)))
  ]

  -- Two lists are permutations of one another exactly when they hold every value equally often.
  pub perm_iff_counts : (xs ys : List A) → Perm xs ys ↔ ((a : A) → count a xs ≡ count a ys)
  perm_iff_counts xs ys = (
    λ p a. sym (count-library a xs) ∙ ap from_ℕ ((perm_iff_count dec).0 p a) ∙ count-library a ys,
    λ h. (perm_iff_count dec).1 λ a.
        sym (to_ℕ-from_ℕ _)
        ∙ ap to_ℕ (count-library a xs ∙ h a ∙ sym (count-library a ys))
        ∙ to_ℕ-from_ℕ _,
  )

  -- A permutation has the same length.
  pub length-perm : (xs ys : List A) → Perm xs ys → length xs ≡ length ys
  length-perm [] ys p = ap length (Perm.nil-eq p)
  length-perm (x ∷ xs) ys p =
      let (m, q) = (cons-perm_iff_perm-erase dec).0 p in
      ap suc (length-perm xs (erase dec ys x) q) ∙ length-erase x ys m

-- Filters and tests by a Boolean predicate; a table's rows are searched with these.
module _ {ℓ} {A : Type ℓ} where
  abbrev pub filter : (A → Bool) → List A → List A
  filter p [] = []
  filter p (x ∷ xs) = if p x then x ∷ filter p xs else filter p xs

  abbrev pub any : (A → Bool) → List A → Bool
  any p [] = false
  any p (x ∷ xs) = p x || any p xs

  abbrev pub all : (A → Bool) → List A → Bool
  all p [] = true
  all p (x ∷ xs) = p x && all p xs

  -- `unique_by same`: no two places hold elements that are the same.
  abbrev pub unique_by : (A → A → Bool) → List A → Bool
  unique_by same [] = true
  unique_by same (x ∷ xs) = not (any (same x) xs) && unique_by same xs

  abbrev pub find_first : (A → Bool) → List A → Option A
  find_first p [] = none
  find_first p (x ∷ xs) = if p x then some x else find_first p xs
