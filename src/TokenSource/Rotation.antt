-- ===== src/TokenSource/Rotation.antt =====
-- What ssoTokenSource.Token stores of a token that the SSO has refreshed.
use evesso.World.{World}
use evesso.Sso.{Sso}
