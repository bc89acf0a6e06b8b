-- ===== src/Store/Pkces/Trace.antt =====
-- Any sequence of CreatePKCE, FindPKCE, PKCE.Destroy and CleanPKCE against the registry of pending
-- authorizations.
use evesso.Prelude.{
  ◌+◌, ◌-◌, ◌≤◌, ◌≡◌, refl, sym, ap, ◌∙◌, false, List, [], ◌∷◌, arith, ◌==◌, inl, inr, ◌⊎◌,
  Bool-cases, filter, Option, none, some, filter-none, All-imp, All-filter, any-false,
  if◌then◌else◌,
}
use evesso.Exec.{Error, unavailable, Result, ok, err, map_ok, Exec, Result-cases}
use evesso.Sql.{
  Time, Strings, Profile, Pkce, PkceCond, Kind, Tables, same_pkce, delete_pkces, select_pkces,
}
use evesso.World.{World}
use evesso.Store.Base.{five_minutes, one_second}
use evesso.Store.Query.{query_nil}
use evesso.Store.Query.Outcome.{query_struct-unserved, query_nil-tables, query_nil-reply}
use evesso.Store.Pkces.{create_pkce, find_pkce, destroy, clean_pkce}
use evesso.Store.Pkces.Creation.{create_pkce-ok, create_pkce-err, create_pkce-clock}
use evesso.Store.Pkces.Expiry.{find_pkce-tables}
use evesso.Store.Pkces.Registry.{
  Operation, is_pending, pending_at, specified, performed, Implements, registry_refines,
  find_pkce-clock, destroy-clock, clean_pkce-clock,
}

abbrev pub Answer : Type 0
Answer = Result (Option Pkce)

-- What a PKCE that was created adds to a registry
abbrev pub added : Answer → List Pkce → List Pkce
added (ok (some k)) entries = k ∷ entries
added (ok none) entries = entries
added (err e) entries = entries

-- The registry that is left where an operation answers without an error, and else
abbrev pub left_by : Operation → Answer → List Pkce → List Pkce
left_by op (ok a) entries = (specified op 0 entries).1
left_by op (err e) entries = entries

left_by-specified :
    (op : Operation) (now : Time) (entries : List Pkce)
    → left_by op (specified op now entries).0 entries ≡ (specified op now entries).1
left_by-specified (Operation.find state) now entries =
    elim (Result-cases (specified (Operation.find state) now entries).0) [
      | inl (a, e) ↦ rw e refl
      | inr (x, e) ↦ rw e refl
    ]
left_by-specified (Operation.use_up k) now entries = refl
left_by-specified Operation.clean now entries = refl

module _ (w : World) where
  open w use {State, tables, served, clock, Value}

  pub data Call : Type 0 where
    create : Profile → Option Value → Strings → Call
    operate : Operation → Call

  abbrev pub called : Call → Exec State (Option Pkce)
  called (create p reference_data scopes) s = (
    map_ok some (create_pkce w p reference_data scopes s).0,
    (create_pkce w p reference_data scopes s).1,
  )
  called (operate op) s = performed w op s

  -- The answers that the registry allows at a time. An entry that is created is new, has the time as its
  -- age, and its state is that of no pending entry.
  abbrev pub Allowed : Call → Time → List Pkce → Answer → Type 0
  Allowed (create p reference_data scopes) now entries a =
      ((e : Error) × (a ≡ err e))
      ⊎ ((k : Pkce) × (a ≡ ok (some k))
          × (k.profile_ref ≡ p.id)
          × (k.scopes ≡ scopes)
          × (k.created_at ≡ now)
          × (filter (λ r. r.state == k.state) (pending_at now entries) ≡ []))
  Allowed (operate op) now entries a = (a ≡ err unavailable) ⊎ (a ≡ (specified op now entries).0)

  abbrev pub moved : Call → Answer → List Pkce → List Pkce
  moved (create p reference_data scopes) a entries = added a entries
  moved (operate op) a entries = left_by op a entries

  abbrev pub answers : List Call → State → List Answer
  answers [] s = []
  answers (c ∷ cs) s = (called c s).0 ∷ answers cs (called c s).1

  -- The time of each call
  abbrev pub times : List Call → State → List Time
  times [] s = []
  times (c ∷ cs) s = clock s ∷ times cs (called c s).1

  -- Answers that the registry gives to the calls at those times.
  abbrev pub Accepted : List Time → List Call → List Answer → List Pkce → Type 0
  Accepted [] [] [] entries = Unit
  Accepted (now ∷ later) (c ∷ cs) (a ∷ rest) entries =
      Allowed c now entries a × Accepted later cs rest (moved c a entries)
  Accepted _ _ _ entries = ⊥

  nil_unserved :
      (cond : PkceCond) (s : State)
      → served s ≡ false
      → ((query_nil w (delete_pkces (cond ∷ [])) s).0 ≡ err unavailable)
        × (tables (query_nil w (delete_pkces (cond ∷ [])) s).1 ≡ tables s)
  nil_unserved cond s down =
      let st = delete_pkces (cond ∷ []) in
      (
        query_nil-reply w Kind.nothing st s refl ∙ rw down refl,
        query_nil-tables w Kind.nothing st s refl ∙ rw down refl,
      )

  unserved :
      (op : Operation) (s : State)
      → served s ≡ false
      → ((performed w op s).0 ≡ err unavailable) × (tables (performed w op s).1 ≡ tables s)
  unfolding find_pkce destroy clean_pkce
  unserved (Operation.find state) s down =
      let conds = PkceCond.state_is state ∷ PkceCond.created_after (clock s - five_minutes) ∷ [] in
      (
        ap (map_ok some) (query_struct-unserved w Kind.pkces (select_pkces conds) s down),
        find_pkce-tables w state s,
      )
  unserved (Operation.use_up k) s down =
      let (failed, same) = nil_unserved (PkceCond.id_is k.id) s down in
      (ap (map_ok (λ d. none)) failed, same)
  unserved Operation.clean s down =
      let (failed, same) =
        nil_unserved (PkceCond.created_before (clock s - (five_minutes + one_second))) s down in
      (ap (map_ok (λ d. none)) failed, same)

  performed-clock : (op : Operation) (s : State) → clock s ≤ clock (performed w op s).1
  performed-clock (Operation.find state) s = find_pkce-clock w state s
  performed-clock (Operation.use_up k) s = destroy-clock w k s
  performed-clock Operation.clean s = clean_pkce-clock w s

  called-clock : (c : Call) (s : State) → clock s ≤ clock (called c s).1
  called-clock (create p reference_data scopes) s = create_pkce-clock w p reference_data scopes s
  called-clock (operate op) s = performed-clock op s

  -- Tables that stay as they are go on to implement a registry.
  unchanged :
      (c : Call) (s : State) (entries : List Pkce)
      → tables (called c s).1 ≡ tables s
      → Implements w s entries
      → Implements w (called c s).1 entries
  unchanged c s entries same h t later =
      ap (λ (u : Tables). pending_at t u.pkces) same ∙ h t (omega (arith, later, called-clock c s))

  operate_step :
      (op : Operation) (s : State) (entries : List Pkce)
      → Implements w s entries
      → Allowed (operate op) (clock s) entries (performed w op s).0
        × Implements w (performed w op s).1 (left_by op (performed w op s).0 entries)
  operate_step op s entries h = elim (Bool-cases (served s)) [
    | inl up ↦
        let (answer, left) = registry_refines w op s entries h up in
        (inr answer, rw (answer, left_by-specified op (clock s) entries) left)
    | inr down ↦
        let (answer, same) = unserved op s down in
        (inl answer, rw answer (unchanged (operate op) s entries same h))
  ]

  create_step :
      (p : Profile) (reference_data : Option Value) (scopes : Strings) (s : State)
      (entries : List Pkce)
      → Implements w s entries
      → let a = (called (create p reference_data scopes) s).0 in
        Allowed (create p reference_data scopes) (clock s) entries a
        × Implements w (called (create p reference_data scopes) s).1 (added a entries)
  create_step p reference_data scopes s entries h =
      elim (Result-cases (create_pkce w p reference_data scopes s).0) [
        | inr (x, e) ↦ (
          inl (x, rw e refl),
          rw e (
              unchanged (create p reference_data scopes) s entries
                (create_pkce-err w p reference_data scopes s x e) h),
        )
        | inl (k, e) ↦
            let (owner, wanted, now, (free, _, after)) =
              create_pkce-ok w p reference_data scopes s k e in
            let rows = (tables s).pkces in
            let apart =
              All-imp (λ r. same_pkce k r ≡ false) (λ r. (r.state == k.state) ≡ false)
                (λ r d. ground arith) rows (any-false (same_pkce k) rows free) in
            let none_pending =
              filter-none (λ r. r.state == k.state) (pending_at (clock s) rows)
                (All-filter (λ r. (r.state == k.state) ≡ false) (is_pending (clock s)) rows
                  apart) in
            (
              inr (
                k,
                (rw e refl),
                owner,
                wanted,
                now,
                ap (filter (λ r. r.state == k.state)) (sym (h (clock s) (omega arith)))
                    ∙ none_pending,
              ),
              rw e (λ t later.
                  ap (λ (u : Tables). pending_at t u.pkces) after
                  ∙ ap (λ l. if is_pending t k then k ∷ l else l)
                      (h t (omega (arith, later, create_pkce-clock w p reference_data scopes s)))),
            )
      ]

  called_step :
      (c : Call) (s : State) (entries : List Pkce)
      → Implements w s entries
      → Allowed c (clock s) entries (called c s).0
        × Implements w (called c s).1 (moved c (called c s).0 entries)
  called_step (create p reference_data scopes) s entries h =
      create_step p reference_data scopes s entries h
  called_step (operate op) s entries h = operate_step op s entries h

  answers-Accepted :
      (cs : List Call) (s : State) (entries : List Pkce)
      → Implements w s entries
      → Accepted (times cs s) cs (answers cs s) entries
  answers-Accepted [] s entries h = tt
  answers-Accepted (c ∷ cs) s entries h =
      let (allowed, left) = called_step c s entries h in
      (allowed, answers-Accepted cs (called c s).1 (moved c (called c s).0 entries) left)

  -- Whatever sequence of CreatePKCE, FindPKCE, Destroy and CleanPKCE runs against the store, and whether
  -- or not each statement is served, the registry that starts with the stored rows accepts the answers at
  -- the times of the calls: a lookup answers the one entry of that state that is pending at that time,
  -- no_rows where there is none, many_rows where there are several, or that the database is unavailable;
  -- an entry that is created without an error is pending from then on under a state that no pending entry
  -- has; an entry that is used up without an error is gone; and to clean changes no answer.
  pub trace_refines :
      (cs : List Call) (s : State) → Accepted (times cs s) cs (answers cs s) (tables s).pkces
  trace_refines cs s = answers-Accepted cs s (tables s).pkces (λ t later. refl)
