-- ===== src/Callback/Requests.antt =====
-- autoconfig.go, ServeHTTP, one call at a time: net/http runs the handler of each request in a goroutine
-- of its own, so that the calls of several requests interleave.
pub mod Sequential
pub mod History
pub mod Genuine
pub mod Interleaved
mod Tests
use evesso.Prelude.{ℕ, zero, suc, ◌-◌, ◌≡◌, String, List, [], ◌∷◌, ltb, if◌then◌else◌}
use evesso.Exec.{Error, Result, ok, err}
use evesso.Sql.{Uuid, Profile, Pkce}
use evesso.World.{World}
use evesso.Store.Base.{five_minutes, CharacterClaims, OauthToken}
use evesso.Store.Pkces.{find_pkce, pkce_profile, destroy, clean_pkce, stored_value}
use evesso.Store.Characters.{create_character}
use evesso.Claims.{Jwt, new_character_claims}
use evesso.Sso.{Sso, AppConfig}
use evesso.Callback.{Response, verify}

-- The call that a request has come to, with the variables that the rest of the handler reads
pub data Phase : Type 0 where
  parsing : Phase
  finding : Uuid → Phase
  reading : Pkce → Phase
  destroying : Pkce → Profile → Phase
  timing : Pkce → Profile → Phase
  exchanging : Pkce → Profile → Phase
  verifying : Pkce → Profile → OauthToken → Phase
  claiming : Pkce → Profile → OauthToken → Jwt → Phase
  creating : Pkce → Profile → OauthToken → CharacterClaims → Phase
  cleaning : Phase
  answered : Response → Phase

-- To the next call, or to the answer of an error
abbrev pub proceed : {S A : Type 0} → (Error → Response) → (A → Phase) → Result A × S → Phase × S
proceed answer next (ok a, s) = (next a, s)
proceed answer next (err e, s) = (Phase.answered (answer e), s)

pub record Request : Type 0 where
  pub code : String
  pub state : String
  pub phase : Phase

-- A request whose handler has not begun
abbrev pub started : String × String → Request
started (code, state) = record { code = code; state = state; phase = Phase.parsing }

module _ (w : World) (sso : Sso w) (cfg : AppConfig) where
  open w use {State, clock}
  open sso use {exchange, parse_uuid}

  unfoldable pub advance : String → String → Phase → State → Phase × State
  advance code state Phase.parsing s =
      proceed (λ e. Response.discarded) Phase.finding (parse_uuid state, s)
  advance code state (Phase.finding id) s =
      proceed (λ e. Response.discarded) Phase.reading (find_pkce w id s)
  advance code state (Phase.reading k) s =
      proceed (λ e. Response.discarded) (Phase.destroying k) (pkce_profile w k s)
  advance code state (Phase.destroying k p) s =
      proceed (λ e. Response.discarded) (λ done. Phase.timing k p) (destroy w k s)
  advance code state (Phase.timing k p) s =
      if ltb five_minutes (clock s - k.created_at)
      then (Phase.answered (Response.said "authentication timeout, please try again"), s)
      else (Phase.exchanging k p, s)
  advance code state (Phase.exchanging k p) s =
      proceed Response.encoded_error (Phase.verifying k p) (exchange code k.code_verifier s)
  advance code state (Phase.verifying k p token) s =
      proceed Response.encoded_error (Phase.claiming k p token)
        (verify w sso cfg token.access_token s)
  advance code state (Phase.claiming k p token jt) s =
      proceed Response.encoded_error (Phase.creating k p token) (new_character_claims jt, s)
  advance code state (Phase.creating k p token claims) s =
      proceed Response.encoded_error (λ c. Phase.cleaning)
        (create_character w p claims token (stored_value w k.reference_data) s)
  advance code state Phase.cleaning s =
      (Phase.answered (Response.redirected cfg.redirect), (clean_pkce w s).1)
  advance code state (Phase.answered r) s = (Phase.answered r, s)

  -- One call of the request with that number
  abbrev pub advance_at : ℕ → List Request × State → List Request × State
  advance_at n ([], s) = ([], s)
  advance_at zero (q ∷ qs, s) =
      let (phase, s') = advance q.code q.state q.phase s in (record q { phase = phase } ∷ qs, s')
  advance_at (suc n) (q ∷ qs, s) = let (rest, s') = advance_at n (qs, s) in (q ∷ rest, s')

  -- The numbers of the requests whose calls follow one another
  abbrev pub interleaved : List ℕ → List Request × State → List Request × State
  interleaved [] r = r
  interleaved (n ∷ ns) r = interleaved ns (advance_at n r)
