-- ===== src/Exec.antt =====
-- Go's `(T, error)` results, and methods that run against a state and return one. What was written
-- before an error stays written, so the state comes back beside the error too.
use evesso.Prelude.{ℕ, ◌≡◌, refl, ap, ◌⊎◌, inl, inr}

-- The errors of the program and of what it calls. `fault` is a nil dereference, and `remote` an error
-- of a library or service that the program only passes on.
pub data Error : Type 0 where
  unavailable unique_violation foreign_key_violation no_rows many_rows nil_output not_pointer :
      Error
  not_marshalled fault timed_out unsupported_platform unknown_configuration no_change missing_issuer
        invalid_issuer :
      Error
  token_scope token_name token_owner token_id : Error
  remote : ℕ → Error

pub data Result {ℓ} (A : Type ℓ) : Type ℓ where
  ok : A → Result A
  err : Error → Result A

-- What a method that returns only an `error` returns otherwise.
abbrev pub Done : Type 0
Done = Unit

abbrev pub map_ok {ℓ κ} : {A : Type ℓ} {B : Type κ} → (A → B) → Result A → Result B
map_ok f (ok a) = ok (f a)
map_ok f (err e) = err e

abbrev pub and_then {ℓ κ} : {A : Type ℓ} {B : Type κ} → Result A → (A → Result B) → Result B
and_then (ok a) f = f a
and_then (err e) f = err e

-- To split on a result and keep the equation.
pub Result-cases :
    {A : Type 0} (r : Result A) → ((a : A) × (r ≡ ok a)) ⊎ ((e : Error) × (r ≡ err e))
Result-cases (ok a) = inl (a, refl)
Result-cases (err e) = inr (e, refl)

abbrev pub Exec {ℓ} : Type ℓ → Type ℓ → Type ℓ
Exec S A = S → Result A × S

module _ {S A : Type 0} where
  abbrev pub pure : A → Exec S A
  pure a s = (ok a, s)

  abbrev pub raise : Error → Exec S A
  raise e s = (err e, s)

  abbrev pub lift : Result A → Exec S A
  lift r s = (r, s)

  abbrev pub gets : (S → A) → Exec S A
  gets f s = (ok (f s), s)

infixl 5 ◌>>=◌ ◌>>◌
abbrev pub ◌>>=◌ : {S A B : Type 0} → Exec S A → (A → Exec S B) → Exec S B
◌>>=◌ m f s = elim (m s).0 [ ok a ↦ f a (m s).1 | err e ↦ (err e, (m s).1) ]

abbrev pub ◌>>◌ : {S A B : Type 0} → Exec S A → Exec S B → Exec S B
m >> k = m >>= λ _. k

-- To prove something of a sequence: for the error of its first step, and for what goes on after it.
pub bind-elim :
    {S A B : Type 0} (P : Result B × S → Type 0) (m : Exec S A) (f : A → Exec S B) (s : S)
    → ((e : Error) → (m s).0 ≡ err e → P (err e, (m s).1))
    → ((a : A) → (m s).0 ≡ ok a → P (f a (m s).1))
    → P ((m >>= f) s)
bind-elim P m f s failed went = elim (Result-cases (m s).0) [
  | inl (a, e) ↦ rw (e, ◌>>=◌) (went a e)
  | inr (x, e) ↦ rw (e, ◌>>=◌) (failed x e)
]

pub bind-err :
    {S A B : Type 0} (m : Exec S A) (f : A → Exec S B) (s : S) (e : Error) (t : S)
    → m s ≡ (err e, t)
    → (m >>= f) s ≡ (err e, t)
bind-err m f s e t h = ap (λ out. elim out.0 [ ok a ↦ f a out.1 | err x ↦ (err x, out.1) ]) h

pub bind-ok :
    {S A B : Type 0} (m : Exec S A) (f : A → Exec S B) (s : S) (a : A) (t : S)
    → m s ≡ (ok a, t)
    → (m >>= f) s ≡ f a t
bind-ok m f s a t h = ap (λ out. elim out.0 [ ok a ↦ f a out.1 | err x ↦ (err x, out.1) ]) h
