-- ===== src/Store/Pkces/Registry.antt =====
-- FindPKCE, PKCE.Destroy and CleanPKCE against an abstract registry of pending authorizations.
use evesso.Prelude.{
  ◌+◌, ◌-◌, ◌≤◌, ◌≡◌, refl, sym, ap, ◌∙◌, Bool, true, not, ◌&&◌, List, [], ◌∷◌, arith, ◌==◌, ltb,
  inl, inr, filter, Option, none, some,
}
use mathlib.Core.Path.{fun_ext}
use evesso.Exec.{no_rows, many_rows, Result, ok, err, map_ok, Exec, Result-cases, ◌>>=◌}
use evesso.Sql.{
  Uuid, Time, Pkce, PkceCond, Kind, Tables, run, select_pkces, delete_pkces, pkce_matches,
}
use evesso.World.{World}
use evesso.Store.Base.{five_minutes, one_second}
use evesso.Store.Query.{query_nil, query_struct}
use evesso.Store.Query.Outcome.{query_struct-served, query_nil-tables, query_nil-reply}
use evesso.Store.Pkces.{find_pkce, destroy, clean_pkce}
use evesso.Store.Pkces.Expiry.{find_pkce-tables, destroy_outcome}

module _ {A : Type 0} where
  filter_both :
      (p q : A → Bool) (xs : List A) → filter p (filter q xs) ≡ filter (λ x. q x && p x) xs
  filter_both p q [] = refl
  filter_both p q (x ∷ xs) = ground (arith, filter_both p q xs)

  filter_comm : (p q : A → Bool) (xs : List A) → filter p (filter q xs) ≡ filter q (filter p xs)
  filter_comm p q [] = refl
  filter_comm p q (x ∷ xs) = ground (arith, filter_comm p q xs)

  filter_absorb :
      (p q : A → Bool)
      → ((x : A) → p x ≡ true → q x ≡ true)
      → (xs : List A) → filter p (filter q xs) ≡ filter p xs
  filter_absorb p q h [] = refl
  filter_absorb p q h (x ∷ xs) = ground (arith, filter_absorb p q h xs, h x)

-- The authorizations that are still valid at a time.
abbrev pub is_pending : Time → Pkce → Bool
is_pending now k = ltb (now - five_minutes) k.created_at

abbrev pub pending_at : Time → List Pkce → List Pkce
pending_at now = filter (is_pending now)

-- The one entry of a list
abbrev pub sole : List Pkce → Result Pkce
sole [] = err no_rows
sole (k ∷ []) = ok k
sole (k ∷ l ∷ rest) = err many_rows

pub data Operation : Type 0 where
  find : Uuid → Operation
  use_up : Pkce → Operation
  clean : Operation

-- The registry: an entry can be looked up by its state while it is pending, and used up. To clean it does
-- nothing.
abbrev pub specified : Operation → Time → List Pkce → Result (Option Pkce) × List Pkce
specified (Operation.find state) now entries =
    (map_ok some (sole (filter (λ k. k.state == state) (pending_at now entries))), entries)
specified (Operation.use_up k) now entries = (ok none, filter (λ r. not (r.id == k.id)) entries)
specified Operation.clean now entries = (ok none, entries)

module _ (w : World) where
  open w use {State, tables, served, clock, fresh}

  -- FindPKCE, PKCE.Destroy and CleanPKCE
  abbrev pub performed : Operation → Exec State (Option Pkce)
  performed (Operation.find state) s =
      (map_ok some (find_pkce w state s).0, (find_pkce w state s).1)
  performed (Operation.use_up k) s = (map_ok (λ d. none) (destroy w k s).0, (destroy w k s).1)
  performed Operation.clean s = (map_ok (λ d. none) (clean_pkce w s).0, (clean_pkce w s).1)

  -- From now on, the same entries are pending in the table as in the registry.
  abbrev pub Implements : State → List Pkce → Type 0
  Implements s entries =
      (t : Time) → clock s ≤ t → pending_at t (tables s).pkces ≡ pending_at t entries

  pub find_pkce-clock : (state : Uuid) (s : State) → clock s ≤ clock (find_pkce w state s).1
  unfolding find_pkce query_struct
  find_pkce-clock state s =
      let conds = PkceCond.state_is state ∷ PkceCond.created_after (clock s - five_minutes) ∷ [] in
      let moved = w.perform-clock Kind.pkces (select_pkces conds) s in
      elim (Result-cases (w.perform Kind.pkces (select_pkces conds) s).0) [
        | inl (rows, e) ↦ rw (find_pkce, query_struct, ◌>>=◌, e) moved
        | inr (x, e) ↦ rw (find_pkce, query_struct, ◌>>=◌, e) moved
      ]

  pub destroy-clock : (k : Pkce) (s : State) → clock s ≤ clock (destroy w k s).1
  unfolding destroy query_nil
  destroy-clock k s = w.perform-clock Kind.nothing (delete_pkces (PkceCond.id_is k.id ∷ [])) s

  pub clean_pkce-clock : (s : State) → clock s ≤ clock (clean_pkce w s).1
  unfolding clean_pkce query_nil
  clean_pkce-clock s =
      w.perform-clock Kind.nothing
        (delete_pkces (PkceCond.created_before (clock s - (five_minutes + one_second)) ∷ [])) s

  scan_one-sole : (rows : List Pkce) → w.scan_one Kind.pkces rows ≡ sole rows
  scan_one-sole [] = w.scan_one-nil Kind.pkces
  scan_one-sole (k ∷ []) = w.scan_one-one Kind.pkces k
  scan_one-sole (k ∷ l ∷ rest) = w.scan_one-many Kind.pkces k l rest

  find_pkce-answer :
      (state : Uuid) (s : State)
      → served s ≡ true
      → (find_pkce w state s).0
        ≡ sole (filter (λ k. k.state == state) (pending_at (clock s) (tables s).pkces))
  unfolding find_pkce run
  find_pkce-answer state s up =
      let conds = PkceCond.state_is state ∷ PkceCond.created_after (clock s - five_minutes) ∷ [] in
      let rows = (tables s).pkces in
      query_struct-served w Kind.pkces (select_pkces conds) s (filter (pkce_matches conds) rows) up
        refl
      ∙ scan_one-sole (filter (pkce_matches conds) rows)
      ∙ ap sole (
          ap (λ (f : Pkce → Bool). filter f rows) (fun_ext λ k. ground arith)
          ∙ sym (filter_both (λ k. k.state == state) (is_pending (clock s)) rows))

  -- What CleanPKCE keeps
  abbrev is_kept : Time → Pkce → Bool
  is_kept now k = not (ltb k.created_at (now - (five_minutes + one_second)))

  cleaned :
      (s : State)
      → served s ≡ true
      → ((clean_pkce w s).0 ≡ ok tt)
        × ((tables (clean_pkce w s).1).pkces ≡ filter (is_kept (clock s)) (tables s).pkces)
  unfolding clean_pkce run
  cleaned s up =
      let conds = PkceCond.created_before (clock s - (five_minutes + one_second)) ∷ [] in
      let st = delete_pkces conds in
      let rows = (tables s).pkces in
      let after = query_nil-tables w Kind.nothing st s refl in
      let left : tables (query_nil w st s).1
          ≡ record (tables s) { pkces = filter (λ r. not (pkce_matches conds r)) rows } =
        after ∙ rw up refl in
      (
        query_nil-reply w Kind.nothing st s refl ∙ rw up refl,
        ap (λ t. t.pkces) left
            ∙ ap (λ (f : Pkce → Bool). filter f rows) (fun_ext λ k. ground arith),
      )

  destroyed :
      (k : Pkce) (s : State)
      → served s ≡ true
      → ((destroy w k s).0 ≡ ok tt)
        × ((tables (destroy w k s).1).pkces ≡ filter (λ r. not (r.id == k.id)) (tables s).pkces)
  unfolding destroy run
  destroyed k s up =
      let reply : (destroy w k s).0 ≡ ok tt =
        query_nil-reply w Kind.nothing (delete_pkces (PkceCond.id_is k.id ∷ [])) s refl
        ∙ rw up refl in
      elim (destroy_outcome w k s) [
        | inl (done, after) ↦ (done, ap (λ t. t.pkces) after)
        | inr (failed, after) ↦ cc (failed, reply)
      ]

  -- The three operations refine the registry: whenever the table implements a registry and the statement
  -- is served, an operation gives the answer that is specified at the present time, and what it leaves
  -- implements the registry that is specified, also at every later time.
  pub registry_refines :
      (op : Operation) (s : State) (entries : List Pkce)
      → Implements s entries
      → served s ≡ true
      → ((performed op s).0 ≡ (specified op (clock s) entries).0)
        × Implements (performed op s).1 (specified op (clock s) entries).1
  registry_refines (Operation.find state) s entries h up = (
    rw (find_pkce-answer state s up, h (clock s) (omega arith)) refl,
    λ t later.
        ap (λ (u : Tables). pending_at t u.pkces) (find_pkce-tables w state s)
        ∙ h t (omega (arith, later, find_pkce-clock state s)),
  )
  registry_refines (Operation.use_up k) s entries h up =
      let (done, left) = destroyed k s up in
      let others = λ (r : Pkce). not (r.id == k.id) in
      (
        rw done refl,
        λ t later.
            ap (pending_at t) left
            ∙ filter_comm (is_pending t) others (tables s).pkces
            ∙ ap (filter others) (h t (omega (arith, later, destroy-clock k s)))
            ∙ sym (filter_comm (is_pending t) others entries),
      )
  registry_refines Operation.clean s entries h up =
      let (done, left) = cleaned s up in
      (
        rw done refl,
        λ t later.
            let since : clock s ≤ t = omega (arith, later, clean_pkce-clock s) in
            ap (pending_at t) left
            ∙ filter_absorb (is_pending t) (is_kept (clock s)) (λ k young. ground (arith, since))
                (tables s).pkces
            ∙ h t since,
      )
