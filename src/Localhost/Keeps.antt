-- ===== src/Localhost/Keeps.antt =====
-- The store while LocalhostAuth serves.
use evesso.Prelude.{String, List}
use evesso.Sql.Schema.{IsConsistent}
use evesso.World.{World}
use evesso.Sso.{Sso, AppConfig}
use evesso.Callback.Keeps.{serve_http-IsConsistent}
use evesso.Callback.Agreement.{serve_http-eq-handle_localhost}
use evesso.Localhost.Server.{Server, start, Step, Reach, here, next}

module _ (w : World) (sso : Sso w) (cfg : AppConfig) where
  Holds : Server w → Type 0
  Holds s = IsConsistent (w.tables s.world)

  Step-Holds : {s u : Server w} → Step w sso cfg s u → Holds s → Holds u
  unfolding Holds
  Step-Holds {s} (Step.accept code state rest e on up e') h =
      rw (e', ← serve_http-eq-handle_localhost w sso cfg code state s.world)
        (serve_http-IsConsistent w sso cfg code state s.world h)
  Step-Holds (Step.send n e free e') h = rw e' h
  Step-Holds (Step.fail x e on e') h = rw e' h
  Step-Holds (Step.close e off e') h = rw e' h
  Step-Holds (Step.report r e e') h = rw e' h
  Step-Holds (Step.expire e e') h = rw e' h
  Step-Holds (Step.take_error r e has e') h = rw e' h
  Step-Holds (Step.take_stop e has e') h = rw e' h
  Step-Holds (Step.take_deadline e over e') h = rw e' h
  Step-Holds (Step.drained e idle e') h = rw e' h
  Step-Holds (Step.give_up e over e') h = rw e' h

  -- Whatever requests LocalhostAuth gets, at every step the tables keep the constraints of the schema.
  pub localhost-IsConsistent :
      {a : w.State} {requests : List (String × String)} {s : Server w}
      → IsConsistent (w.tables a)
      → Reach w sso cfg (start w a requests) s
      → IsConsistent (w.tables s.world)
  unfolding Holds
  localhost-IsConsistent h here = h
  localhost-IsConsistent h (next r st) = Step-Holds st (localhost-IsConsistent h r)
