-- ===== src/Proxy/Dial.antt =====
-- dialContext: the goroutine that dials, the caller that selects, and the context, which can expire
-- between any two steps, also after the caller has returned (DialTimeout cancels it then).
use evesso.Prelude.{◌≡◌, ◌⊎◌, ℕ, Bool, true, false, Option, none, some}
use evesso.Exec.{Error, timed_out}

-- Where the goroutine stands.
pub data Dialler : Type 0 where
  dialling assigned signalled exited : Dialler

-- Where dialContext itself stands; `returned` has the pair that it returned.
pub data Caller : Type 0 where
  selecting expired returning : Caller
  returned : Option ℕ → Option Error → Caller

-- `conn` and `err` are the variables that the two share, `done` says whether that channel is closed.
-- `opened` is the connection that the network has opened, and `closed` whether Close was called on it.
pub record Dial : Type 0 where
  pub conn : Option ℕ
  pub error : Option Error
  pub done : Bool
  pub is_over : Bool
  pub dialler : Dialler
  pub caller : Caller
  pub opened : Option ℕ
  pub closed : Bool

abbrev pub start : Dial
start = record {
  conn = none;
  error = none;
  done = false;
  is_over = false;
  dialler = Dialler.dialling;
  caller = Caller.selecting;
  opened = none;
  closed = false;
}

pub data Step (s u : Dial) : Type 0 where
  -- `conn, err = d.Dial(network, address)`
  connect :
      (c : ℕ)
      → s.dialler ≡ Dialler.dialling
      → u ≡ record s { conn = some c; error = none; opened = some c; dialler = Dialler.assigned }
      → Step s u
  refuse :
      (e : Error)
      → s.dialler ≡ Dialler.dialling
      → u ≡ record s { conn = none; error = some e; dialler = Dialler.assigned }
      → Step s u
  -- `close(done)`
  signal :
      s.dialler ≡ Dialler.assigned
      → u ≡ record s { done = true; dialler = Dialler.signalled }
      → Step s u
  -- `if conn != nil && ctx.Err() != nil { _ = conn.Close() }`
  close :
      (c : ℕ)
      → s.dialler ≡ Dialler.signalled
      → s.conn ≡ some c
      → s.is_over ≡ true
      → u ≡ record s { closed = true; dialler = Dialler.exited }
      → Step s u
  keep :
      s.dialler ≡ Dialler.signalled
      → (s.conn ≡ none) ⊎ (s.is_over ≡ false)
      → u ≡ record s { dialler = Dialler.exited }
      → Step s u
  -- the deadline, or a cancel
  expire : u ≡ record s { is_over = true } → Step s u
  -- `case <-ctx.Done()`, and then `err = ctx.Err()`
  select_over :
      s.caller ≡ Caller.selecting
      → s.is_over ≡ true
      → u ≡ record s { caller = Caller.expired }
      → Step s u
  set_error :
      s.caller ≡ Caller.expired
      → u ≡ record s { error = some timed_out; caller = Caller.returning }
      → Step s u
  -- `case <-done`
  select_done :
      s.caller ≡ Caller.selecting
      → s.done ≡ true
      → u ≡ record s { caller = Caller.returning }
      → Step s u
  -- `return conn, err`
  return :
      s.caller ≡ Caller.returning
      → u ≡ record s { caller = Caller.returned s.conn s.error }
      → Step s u

pub data Reach : Dial → Type 0 where
  here : Reach start
  next : {s u : Dial} → Reach s → Step s u → Reach u
