-- ===== src/Prelude/Predicates.antt =====
-- Predicates on lists by recursion, and how filters, tests and updates act on them.
use mathlib.Core.Path.{◌≡◌, refl, sym, ap, ◌∙◌, subst}
use mathlib.Core.Bool.{Bool, true, false, ◌&&◌}
use mathlib.Core.Logic.{◌≢◌, ◌⊎◌, inl, inr, ◌↔◌}
use mathlib.Core.List.{List, [], ◌∷◌, ◌++◌, map}
use mathlib.Core.Option.{none, some}
use native.Mathlib.Omega.{arith}
use evesso.Prelude.Tests.{Bool-cases}
use evesso.Prelude.Lists.{filter, any, all, unique_by, find_first}

module _ {A : Type 0} where
  abbrev pub All : (A → Type 0) → List A → Type 0
  All P [] = Unit
  All P (x ∷ xs) = P x × All P xs

  abbrev pub Any : (A → Type 0) → List A → Type 0
  Any P [] = ⊥
  Any P (x ∷ xs) = P x ⊎ Any P xs

  -- `R` holds between each element and all that follow it.
  abbrev pub Pairs : (A → A → Type 0) → List A → Type 0
  Pairs R [] = Unit
  Pairs R (x ∷ xs) = All (R x) xs × Pairs R xs

module _ {A : Type 0} where
  pub All-imp : (P Q : A → Type 0) (f : (x : A) → P x → Q x) (xs : List A) → All P xs → All Q xs
  All-imp P Q f [] h = tt
  All-imp P Q f (x ∷ xs) h = (f x h.0, All-imp P Q f xs h.1)

  pub Any-imp : (P Q : A → Type 0) (f : (x : A) → P x → Q x) (xs : List A) → Any P xs → Any Q xs
  Any-imp P Q f (x ∷ xs) (inl h) = inl (f x h)
  Any-imp P Q f (x ∷ xs) (inr h) = inr (Any-imp P Q f xs h)
  Any-imp P Q f [] h = elim h [ ]

  pub All-filter : (P : A → Type 0) (p : A → Bool) (xs : List A) → All P xs → All P (filter p xs)
  All-filter P p [] h = tt
  All-filter P p (x ∷ xs) h = elim (Bool-cases (p x)) [
    | inl e ↦ rw e (h.0, All-filter P p xs h.1)
    | inr e ↦ rw e (All-filter P p xs h.1)
  ]

  -- What a filter keeps passed its test.
  pub filter-All : (p : A → Bool) (xs : List A) → All (λ x. p x ≡ true) (filter p xs)
  filter-All p [] = tt
  filter-All p (x ∷ xs) = elim (Bool-cases (p x)) [
    | inl e ↦ rw e (e, filter-All p xs)
    | inr e ↦ rw e (filter-All p xs)
  ]

  pub Pairs-filter :
      (R : A → A → Type 0) (p : A → Bool) (xs : List A) → Pairs R xs → Pairs R (filter p xs)
  Pairs-filter R p [] h = tt
  Pairs-filter R p (x ∷ xs) h = elim (Bool-cases (p x)) [
    | inl e ↦ rw e (All-filter (R x) p xs h.0, Pairs-filter R p xs h.1)
    | inr e ↦ rw e (Pairs-filter R p xs h.1)
  ]

  pub any-false : (p : A → Bool) (xs : List A) → any p xs ≡ false → All (λ x. p x ≡ false) xs
  any-false p [] e = tt
  any-false p (x ∷ xs) e = (ground arith, any-false p xs (ground arith))

  pub any-true : (p : A → Bool) (xs : List A) → any p xs ≡ true → Any (λ x. p x ≡ true) xs
  any-true p [] e = cc
  any-true p (x ∷ xs) e = elim (Bool-cases (p x)) [
    | inl h ↦ inl h
    | inr h ↦ inr (any-true p xs (ground arith))
  ]

  pub any_of_Any : (p : A → Bool) (xs : List A) → Any (λ x. p x ≡ true) xs → any p xs ≡ true
  any_of_Any p (x ∷ xs) (inl h) = ground arith
  any_of_Any p (x ∷ xs) (inr h) = ground (arith, any_of_Any p xs h)
  any_of_Any p [] h = elim h [ ]

  pub unique_by-Pairs :
      (same : A → A → Bool) (xs : List A)
      → unique_by same xs ≡ true
      → Pairs (λ x y. same x y ≡ false) xs
  unique_by-Pairs same [] e = tt
  unique_by-Pairs same (x ∷ xs) e =
      (any-false (same x) xs (ground arith), unique_by-Pairs same xs (ground arith))

  pub Pairs-imp :
      (R S : A → A → Type 0) (f : (x y : A) → R x y → S x y) (xs : List A) → Pairs R xs → Pairs S xs
  Pairs-imp R S f [] h = tt
  Pairs-imp R S f (x ∷ xs) h = (All-imp (R x) (S x) (f x) xs h.0, Pairs-imp R S f xs h.1)

  pub All-map :
      (P : A → Type 0) (f : A → A) (xs : List A) → All (λ x. P (f x)) xs → All P (map f xs)
  All-map P f [] h = tt
  All-map P f (x ∷ xs) h = (h.0, All-map P f xs h.1)

  pub Any-map :
      (P : A → Type 0) (f : A → A) (xs : List A) → Any (λ x. P (f x)) xs → Any P (map f xs)
  Any-map P f (x ∷ xs) (inl h) = inl h
  Any-map P f (x ∷ xs) (inr h) = inr (Any-map P f xs h)
  Any-map P f [] h = elim h [ ]

  -- An update that leaves `R` as it was leaves `Pairs R` as it was.
  pub Pairs-map :
      (R : A → A → Type 0) (f : A → A) (keep : (x y : A) → R x y → R (f x) (f y)) (xs : List A)
      → Pairs R xs
      → Pairs R (map f xs)
  Pairs-map R f keep [] h = tt
  Pairs-map R f keep (x ∷ xs) h = (
    All-map (R (f x)) f xs (All-imp (R x) (λ y. R (f x) (f y)) (keep x) xs h.0),
    Pairs-map R f keep xs h.1,
  )

module _ {A : Type 0} where
  pub filter-none : (p : A → Bool) (xs : List A) → All (λ x. p x ≡ false) xs → filter p xs ≡ []
  filter-none p [] h = refl
  filter-none p (x ∷ xs) h = rw h.0 (filter-none p xs h.1)

  pub filter-cong :
      (p q : A → Bool) (xs : List A) → All (λ x. p x ≡ q x) xs → filter p xs ≡ filter q xs
  filter-cong p q [] h = refl
  filter-cong p q (x ∷ xs) h = rw h.0 (rw (filter-cong p q xs h.1))

  -- What holds of all holds of one that is there.
  pub All-Any :
      (P Q : A → Type 0) {C : Type 0} (xs : List A)
      → All P xs
      → Any Q xs
      → ((x : A) → P x → Q x → C)
      → C
  All-Any P Q (x ∷ xs) h (inl q) k = k x h.0 q
  All-Any P Q (x ∷ xs) h (inr r) k = All-Any P Q xs h.1 r k
  All-Any P Q [] h r k = elim r [ ]

  -- Two elements that `R` does not relate cannot both be there.
  pub Pairs-clash :
      (R : A → A → Type 0) (P Q : A → Type 0)
      → ((x y : A) → P x → Q y → ¬ R x y)
      → ((x y : A) → Q x → P y → ¬ R x y)
      → ((x : A) → P x → ¬ Q x)
      → (xs : List A) → Pairs R xs
      → Any P xs
      → ¬ Any Q xs
  Pairs-clash R P Q pq qp apart (x ∷ xs) h (inl p) (inl q) = apart x p q
  Pairs-clash R P Q pq qp apart (x ∷ xs) h (inl p) (inr s) =
      All-Any (R x) Q xs h.0 s λ y r q. pq x y p q r
  Pairs-clash R P Q pq qp apart (x ∷ xs) h (inr r) (inl q) =
      All-Any (R x) P xs h.0 r λ y s p. qp x y q p s
  Pairs-clash R P Q pq qp apart (x ∷ xs) h (inr r) (inr s) =
      Pairs-clash R P Q pq qp apart xs h.1 r s
  Pairs-clash R P Q pq qp apart [] h r s = elim r [ ]

  -- A filter that only the first element passes.
  pub filter-first :
      (p : A → Bool) (x : A) (xs : List A)
      → p x ≡ true
      → All (λ y. p y ≡ false) xs
      → filter p (x ∷ xs) ≡ x ∷ []
  filter-first p x xs e h = rw e (rw (filter-none p xs h))

  pub all-append : (p : A → Bool) (xs ys : List A) → all p (xs ++ ys) ≡ (all p xs && all p ys)
  all-append p [] ys = refl
  all-append p (x ∷ xs) ys = ground (arith, all-append p xs ys)

  pub all_iff : (p : A → Bool) (xs : List A) → (all p xs ≡ true) ↔ All (λ x. p x ≡ true) xs
  all_iff p [] = (λ e. tt, λ h. refl)
  all_iff p (x ∷ xs) =
      let (to, from) = all_iff p xs in
      (λ e. (ground arith, to (ground arith)), λ h. let rest = from h.1 in ground (arith, rest))

  pub any_iff : (p : A → Bool) (xs : List A) → (any p xs ≡ true) ↔ Any (λ x. p x ≡ true) xs
  any_iff p xs = (any-true p xs, any_of_Any p xs)

module _ {A : Type 0} (f : A → Bool) where
  -- `x` is there, passes the test, and nothing else does.
  pub record IsOnly (x : A) (xs : List A) : Type 0 where
    pub present : Any (λ y. x ≡ y) xs
    pub passes : f x ≡ true
    pub alone : All (λ y. f y ≡ true → y ≡ x) xs

  none_of_nil : (x : A) (ys : List A) → filter f ys ≡ [] → All (λ y. f y ≡ true → y ≡ x) ys
  none_of_nil x [] e = tt
  none_of_nil x (y ∷ ys) e = elim (Bool-cases (f y)) [
    | inl hit ↦ cc (rw hit at e)
    | inr miss ↦ (λ hit. cc (hit, miss), none_of_nil x ys (rw miss at e))
  ]

  -- Where `y` is the only one that passes and is not related to itself, none of the rest passes.
  none_after :
      (R : A → A → Type 0) (irr : (z : A) → ¬ R z z) (x y : A) (ys : List A)
      → y ≡ x
      → All (R y) ys
      → All (λ z. f z ≡ true → z ≡ x) ys
      → All (λ z. f z ≡ false) ys
  none_after R irr x y [] e k h = tt
  none_after R irr x y (z ∷ ys) e k h = elim (Bool-cases (f z)) [
    | inl hit ↦ absurd (irr y (subst (R y) (h.0 hit ∙ sym e) k.0))
    | inr miss ↦ (miss, none_after R irr x y ys e k.1 h.1)
  ]

  there : (x y : A) (ys : List A) → x ≢ y → Any (λ z. x ≡ z) (y ∷ ys) → Any (λ z. x ≡ z) ys
  there x y ys ne (inl e) = absurd (ne e)
  there x y ys ne (inr r) = r

  pub IsOnly-of_filter : (x : A) (xs : List A) → filter f xs ≡ x ∷ [] → IsOnly x xs
  IsOnly-of_filter x [] e = cc
  IsOnly-of_filter x (y ∷ ys) e = elim (Bool-cases (f y)) [
    | inl hit ↦
        let same : y ∷ filter f ys ≡ x ∷ [] = rw hit at e in
        let head : y ≡ x = cc same in
        let rest : filter f ys ≡ [] = cc same in
        record {
          present = inl (sym head);
          passes = rw (← head) hit;
          alone = (λ _. head, none_of_nil x ys rest);
        }
    | inr miss ↦
        let r = IsOnly-of_filter x ys (rw miss at e) in
        record {
          present = inr r.present;
          passes = r.passes;
          alone = (λ hit. cc (hit, miss), r.alone);
        }
  ]

  pub filter_of_IsOnly :
      (R : A → A → Type 0)
      → ((x : A) → ¬ R x x)
      → (x : A) (xs : List A) → Pairs R xs
      → IsOnly x xs
      → filter f xs ≡ x ∷ []
  filter_of_IsOnly R irr x [] keys h = absurd h.present
  filter_of_IsOnly R irr x (y ∷ ys) keys h = elim (Bool-cases (f y)) [
    | inl hit ↦
        let same = h.alone.0 hit in
        rw (hit, same)
          (ap (◌∷◌ x) (filter-none f ys (none_after R irr x y ys same keys.0 h.alone.1)))
    | inr miss ↦ rw miss (
        filter_of_IsOnly R irr x ys keys.1 (record {
          present = there x y ys (λ e. cc (ap f e, h.passes, miss)) h.present;
          passes = h.passes;
          alone = h.alone.1;
        }))
  ]

  pub Any-filter :
      (x : A) (xs : List A) → f x ≡ true → Any (λ y. x ≡ y) xs → Any (λ y. x ≡ y) (filter f xs)
  Any-filter x (y ∷ ys) e (inl same) = rw (rw same at e) (inl same)
  Any-filter x (y ∷ ys) e (inr r) = elim (Bool-cases (f y)) [
    | inl hit ↦ rw hit (inr (Any-filter x ys e r))
    | inr miss ↦ rw miss (Any-filter x ys e r)
  ]
  Any-filter x [] e r = elim r [ ]

-- A list with two different elements has at least two.
pub two_of_Any :
    {A : Type 0} (c d : A) (xs : List A)
    → Any (λ y. c ≡ y) xs
    → Any (λ y. d ≡ y) xs
    → c ≢ d
    → (q r : A) × (rs : List A) × (xs ≡ q ∷ r ∷ rs)
two_of_Any c d [] hc hd ne = absurd hc
two_of_Any c d (x ∷ []) (inl a) (inl b) ne = absurd (ne (a ∙ sym b))
two_of_Any c d (x ∷ []) (inl a) (inr b) ne = absurd b
two_of_Any c d (x ∷ []) (inr a) hd ne = absurd a
two_of_Any c d (x ∷ y ∷ ys) hc hd ne = (x, y, ys, refl)

-- The first element to pass, where no two that pass may stand together.
pub find_first_of_Any :
    {A : Type 0} (f : A → Bool) (R : A → A → Type 0)
    → ((x y : A) → f x ≡ true → f y ≡ true → ¬ R x y)
    → (x : A) (xs : List A) → Pairs R xs
    → f x ≡ true
    → Any (λ y. x ≡ y) xs
    → find_first f xs ≡ some x
find_first_of_Any f R apart x (y ∷ ys) keys e (inl same) = rw (← same, e) refl
find_first_of_Any f R apart x (y ∷ ys) keys e (inr r) = elim (Bool-cases (f y)) [
  | inl hit ↦
      absurd (All-Any (R y) (λ z. x ≡ z) ys keys.0 r λ z k same. apart y z hit (rw same at e) k)
  | inr miss ↦ rw miss (find_first_of_Any f R apart x ys keys.1 e r)
]
find_first_of_Any f R apart x [] keys e r = elim r [ ]

module _ {A : Type 0} where
  pub any_of_none : (p : A → Bool) (xs : List A) → All (λ x. p x ≡ false) xs → any p xs ≡ false
  any_of_none p [] h = refl
  any_of_none p (x ∷ xs) h = ground (arith, any_of_none p xs h.1)

  pub find_first-none :
      (p : A → Bool) (xs : List A) → All (λ x. p x ≡ false) xs → find_first p xs ≡ none
  find_first-none p [] h = refl
  find_first-none p (x ∷ xs) h = rw h.0 (find_first-none p xs h.1)

  -- Where `R` tells keys apart, an element that is there is the only one with its key.
  pub alone_of_key :
      {K : Type 0} (key : A → K) (R : A → A → Type 0)
      → ((x y : A) → R x y → key x ≢ key y)
      → (x : A) (xs : List A) → Pairs R xs
      → Any (λ y. x ≡ y) xs
      → All (λ y. key y ≡ key x → y ≡ x) xs
  alone_of_key key R apart x (y ∷ ys) keys (inl same) = (
    λ _. sym same,
    All-imp (R y) (λ z. key z ≡ key x → z ≡ x)
        (λ z k e. absurd (apart y z k (ap key (sym same) ∙ sym e))) ys keys.0,
  )
  alone_of_key key R apart x (y ∷ ys) keys (inr r) = (
    λ e. absurd (All-Any (R y) (λ z. x ≡ z) ys keys.0 r λ z k same. apart y z k (e ∙ ap key same)),
    alone_of_key key R apart x ys keys.1 r,
  )
  alone_of_key key R apart x [] keys r = elim r [ ]

module _ {A : Type 0} where
  pub All-both :
      (P Q R : A → Type 0)
      → ((x : A) → P x → Q x → R x)
      → (xs : List A) → All P xs
      → All Q xs
      → All R xs
  All-both P Q R f [] h k = tt
  All-both P Q R f (x ∷ xs) h k = (f x h.0 k.0, All-both P Q R f xs h.1 k.1)

  -- An element that has a property, for `Any` of that property.
  pub Any-element : (P : A → Type 0) (xs : List A) → Any P xs → (x : A) × P x × Any (λ y. x ≡ y) xs
  Any-element P (x ∷ xs) (inl h) = (x, h, inl refl)
  Any-element P (x ∷ xs) (inr r) = let (y, h, there) = Any-element P xs r in (y, h, inr there)
  Any-element P [] r = elim r [ ]
