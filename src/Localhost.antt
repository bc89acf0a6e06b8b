-- ===== src/Localhost.antt =====
-- LocalhostAuth of autoconfig.go, and internal/utils/runner.go: where the server listens, and the steps
-- of its goroutine, its handlers and the select that ends it.
pub mod Address
pub mod Server
pub mod Halts
pub mod Overlap
pub mod Keeps
mod Tests
use evesso.Prelude.{String, Option, none, some, List, [], ◌∷◌, if◌then◌else◌, str_eq}
use evesso.Sso.{AppConfig}
use Address.{CallbackUrl, Listen, has_manager, listen_of}
use evesso.Exec.{Error, unsupported_platform, Done, Result, ok, err, and_then}

-- runtime.GOOS, exec.Command and cmd.Start: `os_exec` starts the command or is its error.
abbrev open_command : String → String → Option (String × List String)
open_command goos url =
    if str_eq goos "linux"
    then some ("xdg-open", url ∷ [])
    else if str_eq goos "windows"
    then some ("rundll32", "url.dll,FileProtocolHandler" ∷ url ∷ [])
    else if str_eq goos "darwin"
    then some ("open", url ∷ [])
    else none

-- utils.OSExec
unfoldable pub os_exec : String → (String → List String → Result Done) → String → Result Done
os_exec goos start url = elim (open_command goos url) [
  | none ↦ err unsupported_platform
  | some (name, args) ↦ start name args
]

-- What LocalhostAuth has set up when its server starts: the path that is handled, the address with its
-- TLS, and the host whose certificates an autocert.Manager gets, if there is one.
pub record Prepared : Type 0 where
  pub handled_path : String
  pub listen : Listen
  pub managed_host : Option String

-- LocalhostAuth up to its server, given os_exec for the platform and url.Parse; the steps of
-- Localhost/Server.antt follow.
unfoldable pub prepare :
    (String → Result Done) → (String → Result CallbackUrl) → AppConfig → String → Result Prepared
unfolding has_manager listen_of
prepare exec parse_url cfg url_path = and_then (exec url_path) λ d.
    and_then (parse_url cfg.callback) λ callback. ok (record {
      handled_path = callback.path;
      listen = listen_of callback cfg;
      managed_host = if has_manager callback cfg then some callback.hostname else none;
    })
