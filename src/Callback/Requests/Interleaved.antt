-- ===== src/Callback/Requests/Interleaved.antt =====
-- The stored characters after requests that interleave.
use evesso.Prelude.{ℕ, ◌≡◌, ◌++◌, String, List, map, Any}
use evesso.World.{World}
use evesso.Sso.{Sso, AppConfig}
use evesso.Callback.Requests.{started, interleaved}

module _ (w : World) (sso : Sso w) (cfg : AppConfig) where
  open w use {State, tables}

  -- The state is that before one of the turns, or the last.
  abbrev pub Occurs : List (String × String) → List ℕ → State → State → Type 0
  Occurs asked ns s u =
      (turns rest : List ℕ) × (ns ≡ turns ++ rest)
      × (u ≡ (interleaved w sso cfg turns (map started asked, s)).1)

  -- The code and the state are those of one of the requests.
  abbrev pub IsAsked : List (String × String) → String → String → Type 0
  IsAsked asked code state = Any (λ a. (code, state) ≡ a) asked
