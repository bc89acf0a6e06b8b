-- ===== src/Store/Pkces/Expiry.antt =====
-- FindPKCE, Destroy and CleanPKCE on the PKCE rows.
use evesso.Prelude.{
  ◌+◌, ◌-◌, ◌≤◌, ◌<◌, ◌≡◌, refl, ap, ◌∙◌, Bool, true, false, not, List, [], ◌∷◌, arith, ◌==◌,
  ==_iff, inl, inr, ◌⊎◌, Bool-cases, filter, All, Any, All-imp, All-both, Any-filter, All-filter,
  filter-All, filter-none, alone_of_key, IsOnly, IsOnly-of_filter, filter_of_IsOnly,
}
use mathlib.Core.Path.{fun_ext}
use evesso.Exec.{unavailable, no_rows, ok, err}
use evesso.Sql.{
  Uuid, Time, Pkce, PkceCond, Kind, Tables, run, select_pkces, delete_pkces, pkce_matches,
}
use evesso.Sql.Schema.{PkceDiffers, IsConsistent}
use evesso.World.{World}
use evesso.Store.Base.{five_minutes, one_second}
use evesso.Store.Query.{query_nil}
use evesso.Store.Query.Outcome.{
  query_struct-ok, query_struct-served, query_struct-tables, query_nil-tables, query_nil-reply,
}
use evesso.Store.Pkces.{find_pkce, destroy, clean_pkce}

module _ (w : World) where
  open w use {State, tables, served, clock, fresh}

  abbrev conds : Uuid → State → List PkceCond
  conds state s = PkceCond.state_is state ∷ PkceCond.created_after (clock s - five_minutes) ∷ []

  -- FindPKCE changes no table.
  pub find_pkce-tables : (state : Uuid) (s : State) → tables (find_pkce w state s).1 ≡ tables s
  unfolding find_pkce run
  find_pkce-tables state s =
      query_struct-tables w Kind.pkces (select_pkces (conds state s)) s ∙ ground arith

  -- A PKCE that FindPKCE answers is stored, has the state that was asked for, and was created less than
  -- five minutes ago.
  pub find_pkce_sound :
      (state : Uuid) (s : State) (k : Pkce)
      → (find_pkce w state s).0 ≡ ok k
      → Any (λ r. k ≡ r) (tables s).pkces
        × (k.state ≡ state)
        × (clock s < k.created_at + five_minutes)
  unfolding find_pkce run
  find_pkce_sound state s k e =
      let (_, found) = query_struct-ok w Kind.pkces (select_pkces (conds state s)) s k e in
      let r = IsOnly-of_filter (pkce_matches (conds state s)) k (tables s).pkces (cc found) in
      let hit = r.passes in (r.present, ground arith, ground arith)

  -- On tables that keep their constraints, FindPKCE answers each stored PKCE that is younger than five
  -- minutes by its state, if the statement is served.
  pub find_pkce_complete :
      (s : State) (k : Pkce)
      → served s ≡ true
      → IsConsistent (tables s)
      → Any (λ r. k ≡ r) (tables s).pkces
      → clock s - five_minutes < k.created_at
      → (find_pkce w k.state s).0 ≡ ok k
  unfolding find_pkce run
  find_pkce_complete s k up h there young =
      let own =
        alone_of_key (λ (r : Pkce). r.state) PkceDiffers (λ x y d. d.1) k (tables s).pkces
          h.pkce_keys there in
      let only : IsOnly (pkce_matches (conds k.state s)) k (tables s).pkces = record {
        present = there;
        passes = ground arith;
        alone =
            All-imp (λ r. r.state ≡ k.state → r ≡ k) _ (λ r f m. f (ground arith)) (tables s).pkces
              own;
      } in
      query_struct-served w Kind.pkces (select_pkces (conds k.state s)) s (k ∷ []) up (
        ap ok (
          filter_of_IsOnly (pkce_matches (conds k.state s)) PkceDiffers (λ x d. d.0 refl) k
            (tables s).pkces h.pkce_keys only))
      ∙ w.scan_one-one Kind.pkces k

  -- The tables without one PKCE row.
  abbrev pub without_pkce : Uuid → Tables → Tables
  without_pkce id t = record t { pkces = filter (λ k. not (k.id == id)) t.pkces }

  pub destroy_outcome :
      (k : Pkce) (s : State)
      → let (r, s') = destroy w k s in
        ((r ≡ ok tt) × (tables s' ≡ without_pkce k.id (tables s)))
        ⊎ ((r ≡ err unavailable) × (tables s' ≡ tables s))
  unfolding destroy run
  destroy_outcome k s =
      let st = delete_pkces (PkceCond.id_is k.id ∷ []) in
      let reply = query_nil-reply w Kind.nothing st s refl in
      let after = query_nil-tables w Kind.nothing st s refl in
      let meaning : filter (λ r. not (pkce_matches (PkceCond.id_is k.id ∷ []) r)) (tables s).pkces
          ≡ filter (λ r. not (r.id == k.id)) (tables s).pkces =
        ap (λ (f : Pkce → Bool). filter f (tables s).pkces) (fun_ext λ r. ground arith) in
      elim (Bool-cases (served s)) [
        | inl up ↦ inl (reply ∙ rw up refl, after ∙ rw up (rw meaning refl))
        | inr down ↦ inr (reply ∙ rw down refl, after ∙ rw down refl)
      ]

  unmatched :
      (k : Pkce) (t : State) (r : Pkce)
      → (r.state ≡ k.state → r ≡ k)
      → not (r.id == k.id) ≡ true
      → pkce_matches (conds k.state t) r ≡ false
  unmatched k t r one other = elim (Bool-cases (r.state == k.state)) [
    | inl same ↦
        let eq : r.id ≡ k.id = ap (λ (x : Pkce). x.id) (one ((==_iff r.state k.state).0 same)) in
        absurd (ground arith)
    | inr differ ↦ ground arith
  ]

  -- A state is good for one use: once its PKCE has been destroyed, FindPKCE finds nothing by it in the
  -- tables that are left, and answers no_rows if the statement is served.
  pub destroyed_not_found :
      (k : Pkce) (s t : State)
      → IsConsistent (tables s)
      → Any (λ r. k ≡ r) (tables s).pkces
      → (destroy w k s).0 ≡ ok tt
      → tables t ≡ tables (destroy w k s).1
      → served t ≡ true
      → (find_pkce w k.state t).0 ≡ err no_rows
  unfolding find_pkce run
  destroyed_not_found k s t h there done same up =
      let rows = (tables s).pkces in
      let kept = filter (λ r. not (r.id == k.id)) rows in
      let own =
        alone_of_key (λ (r : Pkce). r.state) PkceDiffers (λ x y d. d.1) k rows h.pkce_keys there in
      let left =
        All-both (λ r. r.state ≡ k.state → r ≡ k) (λ r. not (r.id == k.id) ≡ true)
          (λ r. pkce_matches (conds k.state t) r ≡ false) (λ r one other. unmatched k t r one other)
          kept (All-filter (λ r. r.state ≡ k.state → r ≡ k) (λ r. not (r.id == k.id)) rows own)
          (filter-All (λ r. not (r.id == k.id)) rows) in
      let gone : tables t ≡ without_pkce k.id (tables s) = elim (destroy_outcome k s) [
        | inl (_, after) ↦ same ∙ after
        | inr (failed, _) ↦ cc (failed, done)
      ] in
      query_struct-served w Kind.pkces (select_pkces (conds k.state t)) t [] up
        (rw gone (ap ok (filter-none (pkce_matches (conds k.state t)) kept left)))
      ∙ w.scan_one-nil Kind.pkces

  abbrev bound : State → Time
  bound s = clock s - (five_minutes + one_second)

  -- CleanPKCE leaves no row that is older than five minutes and one second, and every row that FindPKCE
  -- could still answer at that time; or it fails. No other table changes.
  pub clean_pkce_outcome :
      (s : State)
      → let (r, s') = clean_pkce w s in
        ((r ≡ ok tt)
          × All (λ k. clock s - (five_minutes + one_second) ≤ k.created_at) (tables s').pkces
          × ((k : Pkce)
              → clock s < k.created_at + five_minutes
              → Any (λ r. k ≡ r) (tables s).pkces
              → Any (λ r. k ≡ r) (tables s').pkces)
          × ((tables s').profiles ≡ (tables s).profiles)
          × ((tables s').characters ≡ (tables s).characters))
        ⊎ ((r ≡ err unavailable) × (tables s' ≡ tables s))
  unfolding clean_pkce run
  clean_pkce_outcome s =
      let st = delete_pkces (PkceCond.created_before (bound s) ∷ []) in
      let test = λ (r : Pkce). not (pkce_matches (PkceCond.created_before (bound s) ∷ []) r) in
      let rows = (tables s).pkces in
      let reply = query_nil-reply w Kind.nothing st s refl in
      let after = query_nil-tables w Kind.nothing st s refl in
      elim (Bool-cases (served s)) [
        | inr down ↦ inr (reply ∙ rw down refl, after ∙ rw down refl)
        | inl up ↦
            let left : tables (query_nil w st s).1
                ≡ record (tables s) { pkces = filter test rows } =
              after ∙ rw up refl in
            inl (
              reply ∙ rw up refl,
              rw left (
                  All-imp (λ k. test k ≡ true) (λ k. bound s ≤ k.created_at) (λ k e. ground arith)
                    (filter test rows) (filter-All test rows)),
              λ k young there. rw left (Any-filter test k rows (ground arith) there),
              ap (λ t. t.profiles) left,
              ap (λ t. t.characters) left,
            )
      ]
