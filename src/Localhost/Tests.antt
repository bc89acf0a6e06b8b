-- ===== src/Localhost/Tests.antt =====
-- Runs of LocalhostAuth's server in the world in memory.
use mathlib.Core.WellFounded.{Acc}
use evesso.Prelude.{◌≡◌, refl, ◌⊎◌, arith, String, true, none, List, [], ◌∷◌}
use evesso.Exec.{timed_out, unsupported_platform, ok, err}
use evesso.World.Memory.{memory}
use evesso.World.Samples.{running}
use evesso.Sso.Memory.{config, sign_on}
use evesso.Localhost.{os_exec, prepare}
use evesso.Localhost.Address.{CallbackUrl, Listen, has_manager, listen_of}
use evesso.Localhost.Server.{Main, Server, start, Step, Reach, here, next}
use evesso.Localhost.Halts.{has_returned, localhost-halts}
use evesso.Localhost.Overlap.{overlap_waits}

abbrev requests : List (String × String)
requests = ("code", "state") ∷ ("code", "state") ∷ ("code", "state") ∷ []

abbrev first : Server memory
first = start memory running requests

-- One request is handled, and LocalhostAuth returns.
one_request :
    (s : Server memory) × Reach memory sign_on config first s × (s.main ≡ Main.returned (ok tt))
one_request = (
  _,
  next
      (next
        (next (next here (Step.accept "code" "state" _ refl refl refl refl))
          (Step.send 0 refl refl refl))
        (Step.take_stop refl refl refl))
      (Step.drained refl refl refl),
  refl,
)

-- Three requests are in their handlers before the first of them sends.
three_requests :
    (s : Server memory) × Reach memory sign_on config first s
    × (s.main ≡ Main.shutting)
    × (s.busy ≡ 2)
three_requests = (
  _,
  next
      (next
        (next
          (next (next here (Step.accept "code" "state" _ refl refl refl refl))
            (Step.accept "code" "state" _ refl refl refl refl))
          (Step.accept "code" "state" _ refl refl refl refl))
        (Step.send 2 refl refl refl))
      (Step.take_stop refl refl refl),
  refl,
  refl,
)

abbrev waited : Server memory
waited = three_requests.0

localhost-halts_example :
    Acc (λ u t. Step memory sign_on config t u) first
    × (((u : Server memory) → ¬ Step memory sign_on config first u)
        → has_returned first.main ≡ true)
localhost-halts_example = localhost-halts memory sign_on config first

overlap_waits_example :
    (waited.main ≡ Main.shutting)
    ⊎ ((waited.expired ≡ true) × (waited.main ≡ Main.returned (err timed_out)))
unfolding three_requests
overlap_waits_example = overlap_waits memory sign_on config three_requests.1 refl (omega arith) here

abbrev secure : CallbackUrl
secure = record { scheme = "https"; port = ""; hostname = "localhost"; path = "/callback" }

-- Without autocert the certificates are files, and no manager is installed.
prepares :
    prepare (λ url. ok tt) (λ text. ok secure) config "https://login"
    ≡ ok (record {
      handled_path = "/callback";
      listen = Listen.tls ":443" config.tls_cert config.tls_key;
      managed_host = none;
    })
unfolding prepare has_manager listen_of
prepares = refl

-- The browser is started first: its error ends everything.
no_browser :
    prepare (os_exec "plan9" (λ name args. ok tt)) (λ text. ok secure) config "https://login"
    ≡ err unsupported_platform
unfolding prepare os_exec
no_browser = refl
