-- ===== src/Proxy/Tests.antt =====
-- Interleavings of dialContext.
use evesso.Prelude.{◌≡◌, refl, ◌⊎◌, inr, ℕ, true, false, none, some}
use evesso.Exec.{timed_out}
use evesso.Proxy.Dial.{Dialler, Caller, Dial, Step, Reach, here, next}
use evesso.Proxy.Leaks.{result, dial-no_leak}

-- The network connects, the caller gets the connection, and the cancel that follows the return makes
-- the goroutine close it.
closed_after_return :
    (c : ℕ) → (s : Dial) × Reach s × (s.caller ≡ Caller.returned (some c) none) × (s.closed ≡ true)
closed_after_return c = (
  _,
  next
      (next
        (next
          (next (next (next here (Step.connect c refl refl)) (Step.signal refl refl))
            (Step.select_done refl refl refl))
          (Step.return refl refl))
        (Step.expire refl))
      (Step.close c refl refl refl refl),
  refl,
  refl,
)

-- The goroutine has kept the connection when the deadline passes, and the caller takes the deadline: it
-- returns an error, and beside it a connection that nobody closes.
open_beside_error :
    (c : ℕ)
    → (s : Dial) × Reach s
      × (s.caller ≡ Caller.returned (some c) (some timed_out))
      × (s.dialler ≡ Dialler.exited)
      × (s.closed ≡ false)
open_beside_error c = (
  _,
  next
      (next
        (next
          (next
            (next (next (next here (Step.connect c refl refl)) (Step.signal refl refl))
              (Step.keep refl (inr refl) refl))
            (Step.expire refl))
          (Step.select_over refl refl refl))
        (Step.set_error refl refl))
      (Step.return refl refl),
  refl,
  refl,
  refl,
)

dial-no_leak_example :
    ((closed_after_return 7).0.closed ≡ true)
    ⊎ (result (closed_after_return 7).0.caller ≡ (closed_after_return 7).0.opened)
unfolding closed_after_return
dial-no_leak_example = dial-no_leak (closed_after_return 7).1 refl refl
