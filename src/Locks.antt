-- ===== src/Locks.antt =====
-- GLock and GUnlock of PGStore.go, over the session-level advisory locks of PostgreSQL.
pub mod Checksum
pub mod Pairing
mod Tests
use evesso.Prelude.{
  ◌≡◌, ◌≢◌, ◌+◌, ◌-◌, ◌==◌, ℕ, String, Option, none, some, List, ℤ, pos, if◌then◌else◌, int_eq,
  Bool,
}
use evesso.Exec.{Error, fault, Done, Result, ok, err}
use Checksum.{utf8, checksum_ieee}

-- A pool of connections, and `pg_advisory_lock` and `pg_advisory_unlock` on one of them. `holds` counts
-- how often a session has a lock: requests of one session stack, and a session that asks to unlock what
-- it does not hold gets a warning only.
pub record Advisory : Type 1 where
  pub State : Type 0
  pub Session : Type 0
  pub holds : State → Session → ℤ → ℕ
  pub acquire : State → Result Session × State
  pub acquire-holds : (s : State) (c : Session) (k : ℤ) → holds (acquire s).1 c k ≡ holds s c k
  pub ping : Session → State → Result Done × State
  pub ping-holds :
      (d : Session) (s : State) (c : Session) (k : ℤ) → holds (ping d s).1 c k ≡ holds s c k
  pub lock : Session → ℤ → State → Result Done × State
  pub lock-holds :
      (c : Session) (k : ℤ) (s : State)
      → (lock c k s).0 ≡ ok tt
      → (j : ℤ) → holds (lock c k s).1 c j ≡ (if int_eq j k then holds s c j + 1 else holds s c j)
  pub unlock : Session → ℤ → State → Result Done × State
  pub unlock-holds :
      (c : Session) (k : ℤ) (s : State)
      → (unlock c k s).0 ≡ ok tt
      → (j : ℤ) → holds (unlock c k s).1 c j ≡ (if int_eq j k then holds s c j - 1 else holds s c j)

-- The `interface{}` of the key: int64, int32 and int are numbers, and any other type is not known.
pub data Key : Type 0 where
  number : ℤ → Key
  text : String → Key
  bytes : List ℕ → Key
  unknown : Key

-- The cases of the type switch of GLock
unfoldable pub key_number : Key → Option ℤ
key_number (Key.number n) = some n
key_number (Key.text t) = some (pos (checksum_ieee (utf8 t)))
key_number (Key.bytes t) = some (pos (checksum_ieee t))
key_number Key.unknown = none

-- The cases of the type switch of GUnlock
unfoldable pub unlock_key_number : Key → Option ℤ
unlock_key_number (Key.number n) = some n
unlock_key_number (Key.text t) = some (pos (checksum_ieee (utf8 t)))
unlock_key_number (Key.bytes t) = some (pos (checksum_ieee t))
unlock_key_number Key.unknown = none

-- Both return nothing, or panic.
pub data Outcome : Type 0 where
  done : Outcome
  panic : Error → Outcome
  unknown_type : Outcome

abbrev finish : Result Done → Outcome
finish (ok d) = done
finish (err e) = panic e

module _ (a : Advisory) where
  open a use {State, Session, acquire, ping, lock, unlock}

  -- x.lock, and the world
  abbrev pub Store : Type 0
  Store = Option Session × State

  abbrev run_with :
      (Session → ℤ → State → Result Done × State) → Session → Option ℤ → State → Outcome × Store
  run_with f c none s = (unknown_type, (some c, s))
  run_with f c (some n) s = let (r, s') = f c n s in (finish r, (some c, s'))

  -- What follows `if x.lock == nil { … }`
  abbrev pub on_session :
      (Session → ℤ → State → Result Done × State) → Session → Option ℤ → State → Outcome × Store
  on_session f c n s =
      let (r, s') = ping c s in
      elim r [ err e ↦ (panic e, (some c, s')) | ok d ↦ run_with f c n s' ]

  unfoldable pub g_lock : Key → Store → Outcome × Store
  unfolding key_number
  g_lock key (some c, s) = on_session lock c (key_number key) s
  g_lock key (none, s) =
      let (r, s') = acquire s in
      elim r [ err e ↦ (done, (none, s')) | ok c ↦ on_session lock c (key_number key) s' ]

  -- A nil connection is dereferenced by its Ping.
  unfoldable pub g_unlock : Key → Store → Outcome × Store
  unfolding unlock_key_number
  g_unlock key (some c, s) = on_session unlock c (unlock_key_number key) s
  g_unlock key (none, s) = (panic fault, (none, s))
