-- ===== src/Match/Tally.antt =====
-- elementsMatchByMap in terms of how often each element has still to come.
use mathlib.Core.Logic.{if_pos, ite}
use mathlib.Core.Option
use evesso.Prelude.{
  ℕ, suc, ◌+◌, ◌-◌, ◌==◌, ◌≡◌, ◌≢◌, refl, ◌↔◌, true, none, some, List, [], ◌∷◌, length,
  if◌then◌else◌, inl, inr, arith, Option-cases, count,
}
use evesso.Match.{get, put, delete, tally, drain, elements_match_by_map}

module _ {T : Type 0} (dec : Discrete T) where
  get-put :
      (k j : T) (n : ℕ) (m : List (T × ℕ))
      → get dec j (put dec k n m) ≡ ite (dec k j) (some n) (get dec j m)
  unfolding get put
  get-put k j n [] = refl
  get-put k j n ((i, o) ∷ m) = ground (arith, get-put k j n m)

  get-delete :
      (k j : T) (m : List (T × ℕ)) → get dec j (delete dec k m) ≡ ite (dec k j) none (get dec j m)
  unfolding get delete
  get-delete k j [] = ground arith
  get-delete k j ((i, o) ∷ m) = ground (arith, get-delete k j m)

  -- What the map says of an element; a missing key counts as 0.
  amount : T → List (T × ℕ) → ℕ
  amount k m = Option.get_or (get dec k m) 0

  -- No key is kept at 0, as the second loop deletes it.
  abbrev IsPositive : List (T × ℕ) → Type 0
  IsPositive m = (k : T) → get dec k m ≢ some 0

  amount-put :
      (k j : T) (n : ℕ) (m : List (T × ℕ)) → amount j (put dec k n m) ≡ ite (dec k j) n (amount j m)
  unfolding amount
  amount-put k j n m = ground (arith, get-put k j n m)

  put-IsPositive :
      (k : T) (n : ℕ) (m : List (T × ℕ)) → IsPositive m → IsPositive (put dec k (suc n) m)
  put-IsPositive k n m h j = ground (arith, get-put k j (suc n) m, h j)

  tally-IsPositive : (xs : List T) (m : List (T × ℕ)) → IsPositive m → IsPositive (tally dec xs m)
  unfolding tally
  tally-IsPositive [] m h = h
  tally-IsPositive (x ∷ xs) m h =
      tally-IsPositive xs _
        λ k. ground (arith, get-put x k (Option.get_or (get dec x m) 0 + 1) m, h k)

  amount-tally :
      (k : T) (xs : List T) (m : List (T × ℕ))
      → amount k (tally dec xs m) ≡ amount k m + count dec k xs
  unfolding tally amount
  amount-tally k [] m = omega arith
  amount-tally k (x ∷ xs) m =
      ground
        (arith, amount-tally k xs (put dec x (amount x m + 1) m), amount-put x k (amount x m + 1) m)

  empty_of_amount : (m : List (T × ℕ)) → IsPositive m → ((k : T) → amount k m ≡ 0) → m ≡ []
  unfolding get amount
  empty_of_amount [] h z = refl
  empty_of_amount ((j, n) ∷ m) h z =
      let found : get dec j ((j, n) ∷ m) ≡ some n = if_pos (dec j j) refl _ _ in
      absurd (ground (arith, h j, z j, found))

  length-eq-zero_iff : (m : List (T × ℕ)) → ((length m == 0) ≡ true) ↔ (m ≡ [])
  length-eq-zero_iff [] = ground arith
  length-eq-zero_iff (e ∷ m) = (λ h. absurd (ground arith), λ h. cc)

  -- One round of the second loop, for a key at `suc n`.
  abbrev lower : T → ℕ → List (T × ℕ) → List (T × ℕ)
  lower y n m = if n == 0 then delete dec y (put dec y n m) else put dec y n m

  get-lower :
      (y k : T) (n : ℕ) (m : List (T × ℕ))
      → get dec k (lower y n m) ≡ ite (dec y k) (if n == 0 then none else some n) (get dec k m)
  get-lower y k n m = ground (arith, get-put y k n m, get-delete y k (put dec y n m))

  amount-lower :
      (y k : T) (n : ℕ) (m : List (T × ℕ)) → amount k (lower y n m) ≡ ite (dec y k) n (amount k m)
  unfolding amount
  amount-lower y k n m = ground (arith, get-lower y k n m)

  lower-IsPositive : (y : T) (n : ℕ) (m : List (T × ℕ)) → IsPositive m → IsPositive (lower y n m)
  lower-IsPositive y n m h k = ground (arith, get-lower y k n m, h k)

  drain_iff :
      (ys : List T) (m : List (T × ℕ))
      → IsPositive m
      → (drain dec ys m ≡ true) ↔ ((k : T) → amount k m ≡ count dec k ys)
  unfolding drain amount get
  drain_iff [] m h = (
    λ e k. rw ((length-eq-zero_iff m).0 e),
    λ z. (length-eq-zero_iff m).1 (empty_of_amount m h z),
  )
  drain_iff (y ∷ ys) m h = elim (Option-cases (get dec y m)) [
    | inl missing ↦ (
      λ e. cc (missing, e),
      λ z.
          ground
            (arith, missing, z y, if_pos (dec y y) refl (suc (count dec y ys)) (count dec y ys)),
    )
    | inr (n, found) ↦
        let (to, from) = drain_iff ys (lower y (n - 1) m) (lower-IsPositive y (n - 1) m h) in
        (
          λ e k.
              ground (arith, to (rw (found, drain) at e) k, amount-lower y k (n - 1) m, h y, found),
          λ z.
              rw (found, drain)
                (from λ k. ground (arith, z k, amount-lower y k (n - 1) m, h y, found)),
        )
  ]

  pub by_map_iff :
      (xs ys : List T)
      → (elements_match_by_map dec xs ys ≡ true) ↔ ((k : T) → count dec k xs ≡ count dec k ys)
  unfolding elements_match_by_map amount
  by_map_iff xs ys =
      let (to, from) = drain_iff ys (tally dec xs []) (tally-IsPositive xs [] (λ k. cc)) in
      (
        λ e k. ground (arith, amount-tally k xs [], to e k),
        λ h. from λ k. ground (arith, amount-tally k xs [], h k),
      )
