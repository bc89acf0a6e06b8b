-- ===== src/Localhost/Halts.antt =====
-- LocalhostAuth comes to an end.
use mathlib.Core.WellFounded.{Acc}
use evesso.Prelude.{
  ◌≡◌, refl, ◌+◌, ◌*◌, ◌<◌, ℕ, zero, suc, Bool, true, false, arith, length, if◌then◌else◌,
  Bool-cases, inl, inr,
}
use evesso.World.{World}
use evesso.Sso.{Sso, AppConfig}
use evesso.Localhost.Server.{Serving, Main, Server, Step}

abbrev serving_left : Serving → ℕ
serving_left Serving.listening = 2
serving_left (Serving.ended r) = 1
serving_left Serving.reported = 0

abbrev main_left : Main → ℕ
main_left Main.selecting = 2
main_left Main.shutting = 1
main_left (Main.returned r) = 0

abbrev pub has_returned : Main → Bool
has_returned (Main.returned r) = true
has_returned Main.selecting = false
has_returned Main.shutting = false

module _ (w : World) where
  abbrev measure : Server w → ℕ
  measure s =
      3 * length s.arriving
      + 2 * s.busy
      + (if s.stop then 1 else 0)
      + serving_left s.serving
      + (if s.expired then 0 else 1)
      + main_left s.main

module _ (w : World) (sso : Sso w) (cfg : AppConfig) where
  Step-measure : {s u : Server w} → Step w sso cfg s u → measure w u < measure w s
  Step-measure {s} (Step.accept code state rest e on up e') = rw (e', e) (omega arith)
  Step-measure (Step.send n e free e') = ground arith
  Step-measure (Step.fail x e on e') = ground arith
  Step-measure (Step.close e off e') = ground arith
  Step-measure (Step.report r e e') = ground arith
  Step-measure (Step.expire e e') = ground arith
  Step-measure (Step.take_error r e has e') = ground arith
  Step-measure (Step.take_stop e has e') = ground arith
  Step-measure (Step.take_deadline e over e') = ground arith
  Step-measure (Step.drained e idle e') = ground arith
  Step-measure (Step.give_up e over e') = ground arith

  Acc-below : (n : ℕ) (s : Server w) → measure w s < n → Acc (λ u t. Step w sso cfg t u) s
  Acc-below zero s h = elim h [ ]
  Acc-below (suc n) s h = Acc.intro s (λ u st. Acc-below n u (omega (arith, Step-measure st)))

  -- After the deadline LocalhostAuth can go on to return.
  at_deadline :
      (s : Server w) (m : Main)
      → s.main ≡ m
      → has_returned m ≡ false
      → s.expired ≡ true
      → (u : Server w) × Step w sso cfg s u
  at_deadline s Main.selecting e h over = (_, Step.take_deadline e over refl)
  at_deadline s Main.shutting e h over = (_, Step.give_up e over refl)
  at_deadline s (Main.returned r) e h over = cc h

  goes_on : (s : Server w) → has_returned s.main ≡ false → (u : Server w) × Step w sso cfg s u
  goes_on s h = elim (Bool-cases s.expired) [
    | inr waiting ↦ (_, Step.expire waiting refl)
    | inl over ↦ at_deadline s s.main refl h over
  ]

  -- LocalhostAuth halts, whatever finite sequence of requests arrives and however its goroutines
  -- interleave: from no state is there an endless run, and a run that cannot go on has returned.
  pub localhost-halts :
      (s : Server w)
      → Acc (λ u t. Step w sso cfg t u) s
        × (((u : Server w) → ¬ Step w sso cfg s u) → has_returned s.main ≡ true)
  localhost-halts s = (
    Acc-below (suc (measure w s)) s (omega arith),
    λ stuck. elim (Bool-cases (has_returned s.main)) [
      | inl back ↦ back
      | inr not_yet ↦ let (u, st) = goes_on s not_yet in absurd (stuck u st)
    ],
  )
