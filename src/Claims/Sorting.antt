-- ===== src/Claims/Sorting.antt =====
-- sort.Strings of the standard library, by which newCharacterClaims puts the scopes in order: byte
-- order, which on UTF-8 is the order of the code points.
use Prim.Native.Char.{code}
use mathlib.Core.List
use mathlib.Core.List.Perm
use mathlib.Core.List.{Perm, foldr}
use mathlib.Core.HLevel.{hedberg}
use text.Mathlib.TextEquality.{Char-path}
use evesso.Prelude.{
  ◌≡◌, refl, ap, ap₂, inl, inr, Bool, true, false, String, List, [], ◌∷◌, arith, ltb, ◌==◌,
  if◌then◌else◌, Bool-cases, All, All-imp, str_eq, eq_iff, Pairs,
}

-- `a <= b` on Go's strings
unfoldable pub str_leb : String → String → Bool
str_leb String.[] t = true
str_leb (String.◌∷◌ c s) String.[] = false
str_leb (String.◌∷◌ c s) (String.◌∷◌ d t) =
    let rest = str_leb s t in
    if ltb (code c) (code d) then true else if code c == code d then rest else false

unfoldable pub insert_string : String → List String → List String
insert_string x [] = x ∷ []
insert_string x (y ∷ ys) =
    let rest = insert_string x ys in if str_leb x y then x ∷ y ∷ ys else y ∷ rest

unfoldable pub sort_strings : List String → List String
unfolding insert_string
sort_strings [] = []
sort_strings (x ∷ xs) = insert_string x (sort_strings xs)

total : (s t : String) → str_leb s t ≡ false → str_leb t s ≡ true
unfolding str_leb
total String.[] t h = ground (arith, h)
total (String.◌∷◌ c s) String.[] h = refl
total (String.◌∷◌ c s) (String.◌∷◌ d t) h = ground (arith, total s t)

antisym : (s t : String) → str_leb s t ≡ true → str_leb t s ≡ true → s ≡ t
unfolding str_leb
antisym String.[] String.[] h k = refl
antisym String.[] (String.◌∷◌ d t) h k = ground (arith, k)
antisym (String.◌∷◌ c s) String.[] h k = ground (arith, h)
antisym (String.◌∷◌ c s) (String.◌∷◌ d t) h k =
    let heads : code c ≡ code d = ground (arith, h, k) in
    let tails : s ≡ t = antisym s t (ground (arith, h, heads)) (ground (arith, k, heads)) in
    ap₂ String.◌∷◌ (Char-path c d heads) tails

transitive : (s t u : String) → str_leb s t ≡ true → str_leb t u ≡ true → str_leb s u ≡ true
unfolding str_leb
transitive String.[] t u h k = refl
transitive (String.◌∷◌ c s) String.[] u h k = ground (arith, h)
transitive (String.◌∷◌ c s) (String.◌∷◌ d t) String.[] h k = ground (arith, k)
transitive (String.◌∷◌ c s) (String.◌∷◌ d t) (String.◌∷◌ e u) h k = ground (arith, transitive s t u)

insert_comm :
    (x y : String) (l : List String)
    → insert_string x (insert_string y l) ≡ insert_string y (insert_string x l)
unfolding insert_string
insert_comm x y [] = elim (Bool-cases (str_leb x y)) [
  | inl xy ↦ elim (Bool-cases (str_leb y x)) [
    | inl yx ↦ rw (xy, yx, antisym x y xy yx) refl
    | inr yx ↦ rw (xy, yx) refl
  ]
  | inr xy ↦ rw (xy, total x y xy) refl
]
insert_comm x y (z ∷ l) = ground (
  arith,
  insert_comm x y l,
  total x y,
  total y x,
  total x z,
  total y z,
  antisym x y,
  transitive x y z,
  transitive y x z,
)

pub String_discrete : Discrete String
String_discrete s t = elim (Bool-cases (str_eq s t)) [
  | inl same ↦ yes ((eq_iff s t).0 same)
  | inr other ↦ no (λ e. cc ((eq_iff s t).1 e, other))
]

sort_strings-foldr : (xs : List String) → sort_strings xs ≡ foldr insert_string [] xs
unfolding sort_strings
sort_strings-foldr [] = refl
sort_strings-foldr (x ∷ xs) = ap (insert_string x) (sort_strings-foldr xs)

insert_string-perm : (x : String) (l : List String) → Perm (insert_string x l) (x ∷ l)
unfolding insert_string
insert_string-perm x [] = Perm.rfl
insert_string-perm x (y ∷ l) = elim (Bool-cases (str_leb x y)) [
  | inl below ↦ rw below Perm.rfl
  | inr above ↦ rw above (Perm.trans (Perm.cons y (insert_string-perm x l)) (Perm.swap x y l))
]

-- Sorting reorders.
pub sort_strings-perm : (l : List String) → Perm (sort_strings l) l
unfolding sort_strings
sort_strings-perm [] = Perm.rfl
sort_strings-perm (x ∷ l) =
    Perm.trans (insert_string-perm x (sort_strings l)) (Perm.cons x (sort_strings-perm l))

-- What it returns does not depend on the order of its argument.
pub sort_strings-canonical : {xs ys : List String} → Perm xs ys → sort_strings xs ≡ sort_strings ys
sort_strings-canonical {xs} {ys} p =
    rw (sort_strings-foldr xs, sort_strings-foldr ys)
      (Perm.foldr-eq (List.is_set (hedberg String_discrete)) insert_string insert_comm p [])

-- No later string stands before an earlier one.
abbrev pub IsAscending : List String → Type 0
IsAscending = Pairs (λ s t. str_leb s t ≡ true)

insert_string-above :
    (b x : String) (l : List String)
    → str_leb b x ≡ true
    → All (λ t. str_leb b t ≡ true) l
    → All (λ t. str_leb b t ≡ true) (insert_string x l)
unfolding insert_string
insert_string-above b x [] h k = (h, tt)
insert_string-above b x (y ∷ l) h k = elim (Bool-cases (str_leb x y)) [
  | inl below ↦ rw below (h, k)
  | inr above ↦ rw above (k.0, insert_string-above b x l h k.1)
]

insert_string-IsAscending :
    (x : String) (l : List String) → IsAscending l → IsAscending (insert_string x l)
unfolding insert_string
insert_string-IsAscending x [] h = (tt, tt)
insert_string-IsAscending x (y ∷ l) h = elim (Bool-cases (str_leb x y)) [
  | inl below ↦ rw below (
    (
      below,
      All-imp (λ t. str_leb y t ≡ true) (λ t. str_leb x t ≡ true) (λ t. transitive x y t below) l
          h.0,
    ),
    h,
  )
  | inr above ↦
      rw above (insert_string-above y x l (total x y above) h.0, insert_string-IsAscending x l h.1)
]

pub sort_strings-IsAscending : (l : List String) → IsAscending (sort_strings l)
unfolding sort_strings
sort_strings-IsAscending [] = tt
sort_strings-IsAscending (x ∷ l) =
    insert_string-IsAscending x (sort_strings l) (sort_strings-IsAscending l)
