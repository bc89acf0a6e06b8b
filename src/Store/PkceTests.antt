-- ===== src/Store/PkceTests.antt =====
-- CreatePKCE and sequences of operations on the PKCE rows, in the world in memory.
use evesso.Prelude.{ℕ, ◌≡◌, refl, none, some, List, [], ◌∷◌}
use evesso.Exec.{ok, err, no_rows}
use evesso.Sql.{Pkce, run}
use evesso.World.Memory.{memory}
use evesso.World.Samples.{home, rows, running}
use evesso.Base64.{raw_url_encode, digit}
use evesso.Store.Query.{query_nil, query_struct}
use evesso.Store.Pkces.{make_pkce, create_pkce, find_pkce, destroy, clean_pkce}
use evesso.Store.Pkces.Registry.{Operation}
use evesso.Store.Pkces.Trace.{
  Call, create, operate, Answer, answers, times, Accepted, trace_refines,
}
use evesso.Store.Pkces.Verifier.{IsVerifier, create_pkce-IsVerifier}

abbrev made : Pkce
made = record {
  id = 100;
  state = 101;
  values = record {
    profile_ref = 1;
    code_verifier = "BwcHBwcHBwcHBwcHBwcHBwcHBwcHBwcHBwcHBwcHBwc";
    code_challange = "BwcHBwcHBwcHBwcHBwcHBwcHBwcHBwcHBwcHBwcHBwc";
    code_challange_method = "S256";
    scopes = some ("mail" ∷ []);
    reference_data = some "null";
    created_at = 1060000000;
  };
}

makes : (create_pkce memory home none (some ("mail" ∷ [])) running).0 ≡ ok made
unfolding create_pkce make_pkce query_struct run raw_url_encode digit
makes = refl

create_pkce-IsVerifier_example :
    (bytes : List ℕ) × (memory.random running ≡ some bytes) × IsVerifier memory bytes made.values
create_pkce-IsVerifier_example =
    create_pkce-IsVerifier memory home none (some ("mail" ∷ [])) running made makes

-- A row is created, found, used up, looked for again, and the table is cleaned.
abbrev calls : List (Call memory)
calls =
    create home none (some ("mail" ∷ []))
    ∷ operate (Operation.find 101)
    ∷ operate (Operation.use_up made)
    ∷ operate (Operation.find 101)
    ∷ operate Operation.clean
    ∷ []

abbrev replies : List Answer
replies = ok (some made) ∷ ok (some made) ∷ ok none ∷ err no_rows ∷ ok none ∷ []

replies_are : answers memory calls running ≡ replies
unfolding create_pkce make_pkce find_pkce destroy clean_pkce query_nil query_struct run
    raw_url_encode digit
replies_are = refl

trace_refines_example :
    Accepted memory (times memory calls running) calls (answers memory calls running) rows.pkces
trace_refines_example = trace_refines memory calls running
