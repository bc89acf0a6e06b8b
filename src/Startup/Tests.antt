-- ===== src/Startup/Tests.antt =====
-- Start-ups over a network that answers everything, with the count of open resources as its state.
use evesso.Prelude.{ℕ, ◌+◌, ◌-◌, ◌≡◌, refl, ap, String, Option, none, some, str_eq, if◌then◌else◌}
use evesso.Exec.{fault, unknown_configuration, Result, ok, err}
use evesso.Startup.Config.{Files, load, decoder_of, extension, empty_config}
use evesso.Startup.Discovery.{
  Network, Metadata, Evesso, empty_metadata, auto_config, discover, set_refresher,
}
use evesso.Startup.Started.{auto_config-IsStarted, IsStarted}
use evesso.Startup.Resources.{auto_config-resources}

yml_in_a_folder : extension "/etc/evesso.d/config.yml" ≡ ".yml"
unfolding extension
yml_in_a_folder = refl

no_extension : extension "/etc/evesso.d/config" ≡ ""
unfolding extension
no_extension = refl

abbrev disk : Files ℕ (λ s. s)
disk = record {
  Handle = Unit;
  open_file = λ path s. (ok tt, s + 1);
  open_file-resources = λ path s. refl;
  close_file = λ h s. s - 1;
  close_file-resources = λ h s. refl;
  decode = λ d h c s. ((ok tt, record c { key = "client"; dsn = "postgres://" }), s);
  decode-resources = λ d h c s. refl;
}

abbrev answer : String → Result (Option Metadata)
answer text =
    if str_eq text "null" then ok none else ok (some (record empty_metadata { jwks_uri = text }))

abbrev net : String → Network
net document = record {
  State = ℕ;
  resources = λ s. s;
  files = disk;
  Store = Unit;
  setup = λ x dsn s. (ok tt, s);
  setup-resources = λ x dsn s. refl;
  Client = ℕ;
  timed_client = λ t. t;
  Request = String;
  new_request = λ url. ok url;
  Body = Unit;
  send = λ c r s. (ok tt, s + 1);
  send-resources = λ c r s. refl;
  read_all = λ b s. (ok document, s);
  read_all-resources = λ b s. refl;
  close_body = λ b s. s - 1;
  close_body-resources = λ b s. refl;
  unmarshal = λ text m. answer text;
  Cache = Unit;
  new_cache = λ c s. (ok tt, s);
  new_cache-resources = λ c s. refl;
  register = λ k c interval uri s. (ok tt, s);
  register-resources = λ k c interval uri s. refl;
}

abbrev started : Evesso (net "https://keys")
started = record {
  metadata = record empty_metadata { jwks_uri = "https://keys" };
  refresher = tt;
  cfg = record empty_config { key = "client"; dsn = "postgres://" };
  client = 300;
  store = tt;
}

starts : auto_config (net "https://keys") "config.yaml" tt none 7 ≡ (ok started, 7)
unfolding auto_config discover set_refresher load decoder_of extension
starts = refl

-- A document that is `null` sets the pointer to nil.
null_document : auto_config (net "null") "config.yaml" tt none 7 ≡ (err fault, 7)
unfolding auto_config discover set_refresher load decoder_of extension
null_document = refl

wrong_extension :
    auto_config (net "https://keys") "config.toml" tt none 7 ≡ (err unknown_configuration, 7)
unfolding auto_config discover set_refresher load decoder_of extension
wrong_extension = refl

auto_config-IsStarted_example : IsStarted (net "https://keys") "config.yaml" tt none 7 started
auto_config-IsStarted_example =
    auto_config-IsStarted (net "https://keys") "config.yaml" tt none 7 started
      (ap (λ out. out.0) starts)

auto_config-resources_example : (auto_config (net "null") "config.yaml" tt none 7).1 ≡ 7
auto_config-resources_example = auto_config-resources (net "null") "config.yaml" tt none 7
