-- ===== src/Sso/Tests.antt =====
-- validateAccessToken in the world in memory.
use evesso.Prelude.{◌≡◌, refl, true}
use evesso.Exec.{ok}
use evesso.World.Memory.{memory}
use evesso.World.Samples.{running}
use evesso.Claims.{check_issuer}
use evesso.Sso.{validate_access_token}
use evesso.Sso.Memory.{sign_on, carol}

accepts_carol : (validate_access_token memory sign_on true "client" "signed" running).0 ≡ ok carol
unfolding validate_access_token check_issuer
accepts_carol = refl
