-- ===== src/Generator/Order.antt =====
-- The generated file against the order in which `range scopes` meets the entries.
use mathlib.Core.List.Perm
use mathlib.Core.List.{Permᴰ, Nodup-cons}
use mathlib.Core.List.{Nodup, Perm, mem-cons_self, cons≢nil}
use mathlib.Core.Logic.{∥∥₁_elim}
use mathlib.Core.HLevel.{hedberg}
use evesso.Prelude.{arith, ◌≡◌, refl, sym, ap, ◌∙◌, inl, inr, String, List, [], ◌∷◌, eq_iff}
use evesso.Exec.{Result, ok, err, Result-cases}
use evesso.Claims.Sorting.{sort_strings, sort_strings-canonical, String_discrete}
use evesso.Generator.{
  Scopes, keys, scope_of, Tools, source_text, generate, each, entry, save_scopes, from_parsed,
}

String-IsSet : IsSet String
String-IsSet = hedberg String_discrete

other_key : {j k : String} {ks : List String} → Nodup (j ∷ k ∷ ks) → ¬ (j ≡ k)
other_key {j} {k} {ks} n e = (Nodup-cons.0 n).0 (rw e mem-cons_self)

scope_of_d :
    (k : String) {xs ys : Scopes} → Permᴰ xs ys → Nodup (keys xs) → scope_of xs k ≡ scope_of ys k
unfolding scope_of
scope_of_d k Permᴰ.nil n = refl
scope_of_d k (Permᴰ.cons {a = a} {b = b} {l₁ = l} {l₂ = m} e d) n =
    rw (e, scope_of_d k d (Nodup-cons.0 n).1) refl
scope_of_d k (Permᴰ.swap {a = a} {b = b} {a' = c} {b' = d} {l = l} e f) n =
    let apart : ¬ (a.0 ≡ b.0) = other_key n in
    rw (sym e, sym f)
      (ground
        (arith, (eq_iff a.0 k).0, (eq_iff a.0 k).1, (eq_iff b.0 k).0, (eq_iff b.0 k).1, apart))
scope_of_d k (Permᴰ.trans d e) n =
    scope_of_d k d n ∙ scope_of_d k e (Perm.nodup (Perm.map (λ entry. entry.0) ∣ d ∣₁) n)

-- A lookup does not depend on the order of the entries either, where the keys are distinct.
pub scope_of-perm :
    (k : String) {xs ys : Scopes} → Perm xs ys → Nodup (keys xs) → scope_of xs k ≡ scope_of ys k
scope_of-perm k {xs} {ys} p n =
    ∥∥₁_elim p (String-IsSet (scope_of xs k) (scope_of ys k)) (λ d. scope_of_d k d n)

each-cong :
    (f g : String → String)
    → ((k : String) → f k ≡ g k)
    → (ks : List String) → each f ks ≡ each g ks
each-cong f g h [] = refl
each-cong f g h (k ∷ ks) = rw (h k, each-cong f g h ks) refl

pub source_text-perm :
    (quote : String → String) {xs ys : Scopes}
    → Perm xs ys
    → Nodup (keys xs)
    → source_text quote xs ≡ source_text quote ys
unfolding source_text
source_text-perm quote {xs} {ys} p n =
    let sorted : sort_strings (keys xs) ≡ sort_strings (keys ys) =
      sort_strings-canonical (Perm.map (λ entry. entry.0) p) in
    let entries : each (entry quote xs) (sort_strings (keys ys))
        ≡ each (entry quote ys) (sort_strings (keys ys)) =
      each-cong (entry quote xs) (entry quote ys) (λ k. rw (entry, scope_of-perm k p n) refl)
        (sort_strings (keys ys)) in
    rw (sorted, entries) refl

-- The same error, or the same map met in another order.
abbrev pub IsReordered : Result Scopes → Result Scopes → Type 0
IsReordered (ok xs) (ok ys) = Perm xs ys × Nodup (keys xs)
IsReordered (ok xs) (err e) = ⊥
IsReordered (err e) r = r ≡ err e

module _ (t : Tools) where
  open t use {World}

  -- The same tools, under another order of `range`
  abbrev pub ranging : (String → Result Scopes) → Tools
  ranging parse = record t { parse_scopes = parse }

  save_scopes-perm :
      (xs ys : Scopes) (out_path : String) (w : World)
      → Perm xs ys
      → Nodup (keys xs)
      → save_scopes t xs out_path w ≡ save_scopes t ys out_path w
  save_scopes-perm [] ys out_path w p n = ap (λ l. save_scopes t l out_path w) (Perm.nil-eq p)
  save_scopes-perm (x ∷ xs) [] out_path w p n = absurd (cons≢nil (Perm.eq-nil p))
  save_scopes-perm (x ∷ xs) (y ∷ ys) out_path w p n =
      rw (save_scopes, source_text-perm t.quote p n) refl

  from_parsed-reordered :
      (r q : Result Scopes) (out_path : String) (w : World)
      → IsReordered r q
      → from_parsed t r out_path w ≡ from_parsed t q out_path w
  from_parsed-reordered (err e) q out_path w h = rw h refl
  from_parsed-reordered (ok xs) (ok ys) out_path w h = save_scopes-perm xs ys out_path w h.0 h.1
  from_parsed-reordered (ok xs) (err e) out_path w h = absurd h

  -- Wherever `range` starts and in whichever order it goes on, the command does the same to the same
  -- files and ends in the same way.
  pub generate-order :
      (parse : String → Result Scopes)
      → ((text : String) → IsReordered (t.parse_scopes text) (parse text))
      → (spec_path out_path : String) (w : World)
      → generate t spec_path out_path w ≡ generate (ranging parse) spec_path out_path w
  unfolding generate
  generate-order parse h spec_path out_path w = elim (Result-cases (t.read_file spec_path w)) [
    | inl (text, e) ↦
        rw (generate, e)
          (from_parsed-reordered (t.parse_scopes text) (parse text) out_path w (h text))
    | inr (x, e) ↦ rw (generate, e) refl
  ]
