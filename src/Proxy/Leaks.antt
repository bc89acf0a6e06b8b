-- ===== src/Proxy/Leaks.antt =====
-- Who closes a connection that dialContext has opened.
use evesso.Prelude.{◌≡◌, ◌⊎◌, inl, inr, ℕ, Bool, true, false, Option, none, arith, Bool-cases}
use evesso.Proxy.Dial.{Dialler, Caller, Dial, start, Step, Reach, here, next}

abbrev is_selecting : Caller → Bool
is_selecting Caller.selecting = true
is_selecting _ = false

abbrev pub has_returned : Caller → Bool
has_returned (Caller.returned c e) = true
has_returned _ = false

-- The connection of the pair that was returned.
abbrev pub result : Caller → Option ℕ
result (Caller.returned c e) = c
result _ = none

record Inv (s : Dial) : Type 0 where
  same : s.conn ≡ s.opened
  fresh : s.dialler ≡ Dialler.dialling → (s.done ≡ false) × (s.opened ≡ none)
  unsignalled : s.dialler ≡ Dialler.assigned → s.done ≡ false
  moved : is_selecting s.caller ≡ false → (s.is_over ≡ true) ⊎ (s.done ≡ true)
  given :
      has_returned s.caller ≡ true
      → (result s.caller ≡ s.opened) ⊎ ((s.is_over ≡ true) × (result s.caller ≡ none))
  kept :
      s.dialler ≡ Dialler.exited
      → s.closed ≡ false
      → has_returned s.caller ≡ true
      → result s.caller ≡ s.opened

start-Inv : Inv start
start-Inv = ground arith

Step-Inv : {s u : Dial} → Step s u → Inv s → Inv u
Step-Inv (Step.connect c at e) h = ground arith
Step-Inv (Step.refuse x at e) h = ground arith
Step-Inv (Step.signal at e) h = ground arith
Step-Inv (Step.close c at has over e) h = ground arith
Step-Inv (Step.keep at why e) h = ground arith
Step-Inv (Step.expire e) h = ground arith
Step-Inv (Step.select_over at over e) h = ground arith
Step-Inv (Step.set_error at e) h = ground arith
Step-Inv (Step.select_done at done e) h = ground arith
Step-Inv (Step.return at e) h = ground arith

Reach-Inv : {s : Dial} → Reach s → Inv s
Reach-Inv here = start-Inv
Reach-Inv (next r st) = Step-Inv st (Reach-Inv r)

-- However the two threads and the deadline interleave: when the goroutine has ended and dialContext has
-- returned, a connection that was opened has been closed, or it is the connection that was returned.
pub dial-no_leak :
    {s : Dial}
    → Reach s
    → s.dialler ≡ Dialler.exited
    → has_returned s.caller ≡ true
    → (s.closed ≡ true) ⊎ (result s.caller ≡ s.opened)
dial-no_leak {s} r ended back = elim (Bool-cases s.closed) [
  | inl closed ↦ inl closed
  | inr still ↦ inr ((Reach-Inv r).kept ended still back)
]
