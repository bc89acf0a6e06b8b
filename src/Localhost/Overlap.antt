-- ===== src/Localhost/Overlap.antt =====
-- What LocalhostAuth returns, and what requests that overlap do to it.
use evesso.Prelude.{
  ◌≡◌, refl, ◌⊎◌, inl, inr, ◌≤◌, ◌+◌, ℕ, String, Bool, true, false, Option, some, List, arith,
  if◌then◌else◌,
}
use evesso.Exec.{timed_out, Done, Result, ok, err}
use evesso.World.{World}
use evesso.Sso.{Sso, AppConfig}
use evesso.Localhost.Server.{Serving, Main, Server, start, Step, Reach, here, next}

abbrev is_shutting : Main → Bool
is_shutting Main.shutting = true
is_shutting _ = false

abbrev is_selecting : Main → Bool
is_selecting Main.selecting = true
is_selecting _ = false

-- Returned without an error.
abbrev pub is_success : Main → Bool
is_success (Main.returned (ok d)) = true
is_success _ = false

abbrev ended_well : Serving → Bool
ended_well (Serving.ended (ok d)) = true
ended_well _ = false

abbrev reported_well : Option (Result Done) → Bool
reported_well (some (ok d)) = true
reported_well _ = false

abbrev pub waiting : Bool → ℕ
waiting b = if b then 1 else 0

module _ (w : World) (sso : Sso w) (cfg : AppConfig) where
  record Inv (s : Server w) : Type 0 where
    counted : s.busy + waiting s.stop ≤ s.accepted
    quiet : is_selecting s.main ≡ true → s.shutdown ≡ false
    alive : s.shutdown ≡ false → (ended_well s.serving ≡ false) × (reported_well s.error ≡ false)
    down : is_shutting s.main ≡ true → s.shutdown ≡ true
    handled :
        s.expired ≡ false
        → (is_shutting s.main ≡ true) ⊎ (is_success s.main ≡ true)
        → 1 ≤ s.accepted

  start-Inv : (a : w.State) (requests : List (String × String)) → Inv (start w a requests)
  start-Inv a requests = ground arith

  Step-Inv : {s u : Server w} → Step w sso cfg s u → Inv s → Inv u
  Step-Inv (Step.accept code state rest e on up e') h = rw e' (ground arith)
  Step-Inv (Step.send n e free e') h = ground arith
  Step-Inv (Step.fail x e on e') h = ground arith
  Step-Inv (Step.close e off e') h = ground arith
  Step-Inv (Step.report r e e') h = ground arith
  Step-Inv (Step.expire e e') h = ground arith
  Step-Inv (Step.take_error r e has e') h = ground arith
  Step-Inv (Step.take_stop e has e') h = ground arith
  Step-Inv (Step.take_deadline e over e') h = ground arith
  Step-Inv (Step.drained e idle e') h = ground arith
  Step-Inv (Step.give_up e over e') h = ground arith

  Reach-Inv :
      {a : w.State} {requests : List (String × String)} {s : Server w}
      → Reach w sso cfg (start w a requests) s
      → Inv s
  Reach-Inv {a} {requests} here = start-Inv a requests
  Reach-Inv (next r st) = Step-Inv st (Reach-Inv r)

  -- Two handlers that are not rid of their send, or one with the channel full, after the select.
  record Stuck (s : Server w) : Type 0 where
    two : 2 ≤ s.busy + waiting s.stop
    off : s.shutdown ≡ true
    held :
        (s.main ≡ Main.shutting) ⊎ ((s.expired ≡ true) × (s.main ≡ Main.returned (err timed_out)))

  Step-Stuck : {s u : Server w} → Step w sso cfg s u → Stuck s → Stuck u
  Step-Stuck (Step.accept code state rest e on up e') h = cc (up, h.off)
  Step-Stuck (Step.send n e free e') h = ground arith
  Step-Stuck (Step.fail x e on e') h = ground arith
  Step-Stuck (Step.close e off e') h = ground arith
  Step-Stuck (Step.report r e e') h = ground arith
  Step-Stuck (Step.expire e e') h = ground arith
  Step-Stuck (Step.take_error r e has e') h = ground arith
  Step-Stuck (Step.take_stop e has e') h = ground arith
  Step-Stuck (Step.take_deadline e over e') h = ground arith
  Step-Stuck (Step.drained e idle e') h = ground arith
  Step-Stuck (Step.give_up e over e') h = ground arith

  -- From any start and with any requests: if LocalhostAuth returns nil before its deadline, the handler has
  -- run for at least one request.
  pub localhost-success :
      {a : w.State} {requests : List (String × String)} {s : Server w}
      → Reach w sso cfg (start w a requests) s
      → s.expired ≡ false
      → is_success s.main ≡ true
      → 1 ≤ s.accepted
  localhost-success {s} r early done = (Reach-Inv r).handled early (inr done)

  Reach-Stuck : {s t : Server w} → Stuck s → Reach w sso cfg s t → Stuck t
  Reach-Stuck h here = h
  Reach-Stuck h (next r st) = Step-Stuck st (Reach-Stuck h r)

  -- If LocalhostAuth is in Shutdown while two handlers have yet to send, or one has and the channel is full,
  -- then from there it returns in no way but with the error of its deadline, however it goes on.
  pub overlap_waits :
      {a : w.State} {requests : List (String × String)} {s t : Server w}
      → Reach w sso cfg (start w a requests) s
      → s.main ≡ Main.shutting
      → 2 ≤ s.busy + waiting s.stop
      → Reach w sso cfg s t
      → (t.main ≡ Main.shutting) ⊎ ((t.expired ≡ true) × (t.main ≡ Main.returned (err timed_out)))
  overlap_waits {s} r at two later =
      let h : Stuck s = record {
        two = two;
        off = (Reach-Inv r).down (rw at refl);
        held = inl at;
      } in
      (Reach-Stuck h later).held
