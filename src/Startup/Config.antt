-- ===== src/Startup/Config.antt =====
-- config.go: appConfig.Load and CallbackURL, with filepath.Ext of the standard library.
use evesso.Prelude.{
  ℕ, ◌+◌, ◌-◌, ◌≡◌, Bool, false, ◌||◌, String, Option, none, some, if◌then◌else◌, str_eq, ◌==◌,
}
use Prim.Native.Char.{Char, code}
use evesso.Exec.{Done, Result, ok, err, Exec, unknown_configuration}
use evesso.Sso.{AppConfig}
use evesso.Localhost.Address.{CallbackUrl}

abbrev is_dot : Char → Bool
is_dot c = code c == b'.'

abbrev is_separator : Char → Bool
is_separator c = code c == b'/'

-- What a scan from the right decides: nothing yet, or the extension.
abbrev pub scan_step : Char → String → Option String → Option String
scan_step c s (some found) = some found
scan_step c s none =
    if is_dot c then some (String.◌∷◌ c s) else if is_separator c then some "" else none

abbrev pub scan_extension : String → Option String
scan_extension String.[] = none
scan_extension (String.◌∷◌ c s) = scan_step c s (scan_extension s)

-- filepath.Ext
unfoldable pub extension : String → String
extension path = elim (scan_extension path) [ none ↦ "" | some found ↦ found ]

pub data Decoder : Type 0 where
  yaml json : Decoder

-- The cases of the switch
unfoldable pub decoder_of : String → Option Decoder
decoder_of ext =
    if str_eq ext ".yaml" || str_eq ext ".yml"
    then some Decoder.yaml
    else if str_eq ext ".json"
    then some Decoder.json
    else none

-- os.Open, os.File.Close, and the decoders, which may have written some of the fields before an
-- error. `resources` counts the open files and response bodies.
pub record Files (State : Type 0) (resources : State → ℕ) : Type 1 where
  pub Handle : Type 0
  pub open_file : String → Exec State Handle
  pub open_file-resources :
      (path : String) (s : State)
      → resources (open_file path s).1
        ≡ elim (open_file path s).0 [ ok h ↦ resources s + 1 | err e ↦ resources s ]
  pub close_file : Handle → State → State
  pub close_file-resources : (h : Handle) (s : State) → resources (close_file h s) ≡ resources s - 1
  pub decode : Decoder → Handle → AppConfig → State → (Result Done × AppConfig) × State
  pub decode-resources :
      (d : Decoder) (h : Handle) (c : AppConfig) (s : State)
      → resources (decode d h c s).1 ≡ resources s

-- `new(appConfig)`
abbrev pub empty_config : AppConfig
empty_config = record {
  key = "";
  secret = "";
  callback = "";
  redirect = "";
  dsn = "";
  autocert = false;
  autocert_cache = "";
  tls_cert = "";
  tls_key = "";
}

-- appConfig.CallbackURL, nil where url.Parse is an error
abbrev pub callback_url : (String → Result CallbackUrl) → AppConfig → Option CallbackUrl
callback_url parse c = elim (parse c.callback) [ ok u ↦ some u | err e ↦ none ]

module _ (State : Type 0) (resources : State → ℕ) (files : Files State resources) where
  open files use {Handle, open_file, close_file, decode}

  -- The switch, on the open file
  abbrev pub read_config : String → Handle → AppConfig → State → (Result Done × AppConfig) × State
  read_config path h c s = elim (decoder_of (extension path)) [
    | some d ↦ decode d h c s
    | none ↦ ((err unknown_configuration, c), s)
  ]

  -- appConfig.Load. The file is closed whatever the switch does.
  unfoldable pub load : String → AppConfig → State → (Result Done × AppConfig) × State
  load path c s =
      let (r, s') = open_file path s in
      elim r [
        | err e ↦ ((err e, c), s')
        | ok h ↦ let (out, s'') = read_config path h c s' in (out, close_file h s'')
      ]
