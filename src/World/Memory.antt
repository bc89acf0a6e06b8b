-- ===== src/World/Memory.antt =====
-- A world that keeps its promises: the tables in memory, with a list that says of each statement to
-- come whether it is served.
use evesso.Prelude.{
  ℕ, ◌+◌, ◌≤◌, ◌≡◌, refl, arith, String, Bool, true, Option, none, some, List, [], ◌∷◌,
  if◌then◌else◌, ◌<◌, length, replicate, All, zero, suc,
}
use evesso.Exec.{unavailable, no_rows, many_rows, Result, ok, err}
use evesso.Sql.{Time, Tables, Kind, Row, Statement, run}
use evesso.World.{World}

pub record Server : Type 0 where
  pub contents : Tables
  pub now : Time
  pub next : ℕ
  pub plan : List Bool

abbrev head_or : Bool → List Bool → Bool
head_or d [] = d
head_or d (b ∷ bs) = b

abbrev rest_of : List Bool → List Bool
rest_of [] = []
rest_of (b ∷ bs) = bs

abbrev answer : (k : Kind) → Statement k → Server → Result (List (Row k)) × Tables
answer k st s =
    if head_or true s.plan
    then run (s.next, s.next + 1) st s.contents
    else (err unavailable, s.contents)

abbrev serve : (k : Kind) → Statement k → Server → Result (List (Row k)) × Server
serve k st s = (
  (answer k st s).0,
  record {
    contents = (answer k st s).1;
    now = s.now + 1;
    next = s.next + 2;
    plan = rest_of s.plan;
  },
)

pub serve-reply :
    (k : Kind) (st : Statement k) (s : Server)
    → (serve k st s).0 ≡ (
        if head_or true s.plan then (run (s.next, s.next + 1) st s.contents).0 else err unavailable)
serve-reply k st s = ground arith

pub serve-tables :
    (k : Kind) (st : Statement k) (s : Server)
    → (serve k st s).1.contents
      ≡ (if head_or true s.plan then (run (s.next, s.next + 1) st s.contents).1 else s.contents)
serve-tables k st s = ground arith

pub serve-clock : (k : Kind) (st : Statement k) (s : Server) → s.now ≤ (serve k st s).1.now
serve-clock k st s = omega arith

abbrev scan : (k : Kind) → List (Row k) → Result (Row k)
scan k [] = err no_rows
scan k (r ∷ []) = ok r
scan k (q ∷ r ∷ rs) = err many_rows

-- Reference data are texts here, and their own JSON; nil is "null". A token's text is its expiry.
abbrev encode : Option String → Result String
encode none = ok "null"
encode (some t) = ok t

abbrev sevens : List ℕ
sevens = replicate 32 7

pub All-replicate : {A : Type 0} (P : A → Type 0) (n : ℕ) (a : A) → P a → All P (replicate n a)
All-replicate P zero a h = tt
All-replicate P (suc n) a h = (h, All-replicate P n a h)

pub sevens-bytes :
    (bytes : List ℕ) → some sevens ≡ some bytes → (length bytes ≡ 32) × All (λ b. b < 256) bytes
sevens-bytes bytes e =
    let same : sevens ≡ bytes = cc e in
    rw (← same) (refl, All-replicate (λ b. b < 256) 32 7 (omega arith))

abbrev pub memory : World
memory = record {
  State = Server;
  tables = λ s. s.contents;
  clock = λ s. s.now;
  served = λ s. head_or true s.plan;
  fresh = λ s. (s.next, s.next + 1);
  perform = serve;
  perform-reply = serve-reply;
  perform-tables = serve-tables;
  perform-clock = serve-clock;
  scan_one = scan;
  scan_one-nil = λ k. refl;
  scan_one-one = λ k r. refl;
  scan_one-many = λ k q r rs. refl;
  Value = String;
  marshal = encode;
  unmarshal = λ t. ok (some t);
  random = λ s. some sevens;
  random-bytes = λ s bytes e. sevens-bytes bytes e;
  sha256 = λ t. sevens;
  parse_insecure = λ t. ok none;
}
