-- ===== src/Generator.antt =====
-- internal/gen/scopes/main.go: the command that writes scopes_gen.go from the OpenAPI specification.
pub mod Output
pub mod Order
pub mod Runs
mod Tests
use Prim.Native.String.{◌++◌}
use evesso.Prelude.{String, List, [], ◌∷◌, map, if◌then◌else◌, str_eq}
use evesso.Exec.{Done, Result, ok, err}
use evesso.Claims.Sorting.{sort_strings}

-- A `map[string]string` in the order in which one `range` meets its entries. Go leaves that order open.
abbrev pub Scopes : Type 0
Scopes = List (String × String)

abbrev pub keys : Scopes → List String
keys = map (λ entry. entry.0)

-- `scopes[k]`, the empty string where the key is missing
unfoldable pub scope_of : Scopes → String → String
scope_of [] k = ""
scope_of ((j, v) ∷ rest) k = let later = scope_of rest k in if str_eq j k then v else later

-- The verb %q of package fmt, format.Source, the files, and what json.Unmarshal finds at
-- components.securitySchemes.OAuth2.flows.authorizationCode.scopes.
pub record Tools : Type 1 where
  pub World : Type 0
  pub quote : String → String
  pub read_file : String → World → Result String
  pub parse_scopes : String → Result Scopes
  pub format_source : String → Result String
  pub write_file : String → String → World → Result Done × World

-- os.Exit(1) at each of the five messages, or the end of main
pub data Exit : Type 0 where
  written reading parsing zero_scopes formatting writing : Exit

-- A `for _, k := range keys` that writes
abbrev pub each : (String → String) → List String → String
each f [] = ""
each f (k ∷ ks) = f k ++ each f ks

module _ (quote : String → String) where
  -- `\t%q: %q,\n` and `\t%q,\n`
  abbrev pub entry : Scopes → String → String
  entry scopes k = "\t" ++ (quote k ++ (": " ++ (quote (scope_of scopes k) ++ ",\n")))

  abbrev pub name : String → String
  name k = "\t" ++ (quote k ++ ",\n")

  -- What the strings.Builder holds at the end
  unfoldable pub source_text : Scopes → String
  source_text scopes =
      let ks = sort_strings (keys scopes) in
      "// Code generated by internal/gen/scopes; DO NOT EDIT.\n\n"
      ++ ("package evesso\n\n"
          ++ ("var swagger_scopes = map[string]string{\n"
              ++ (each (entry scopes) ks
                  ++ ("}\n\n" ++ ("var ALL_SCOPES = []string{\n" ++ (each name ks ++ "}\n"))))))

abbrev pub wrote : Result Done → Exit
wrote (ok d) = written
wrote (err e) = writing

module _ (t : Tools) where
  open t use {World, quote, read_file, parse_scopes, format_source, write_file}

  -- From json.Unmarshal on, for the scopes it found
  abbrev pub save_scopes : Scopes → String → World → Exit × World
  save_scopes [] out_path w = (zero_scopes, w)
  save_scopes (s ∷ rest) out_path w = elim (format_source (source_text quote (s ∷ rest))) [
    | err e ↦ (formatting, w)
    | ok text ↦ let (r, w') = write_file out_path text w in (wrote r, w')
  ]

  abbrev pub from_parsed : Result Scopes → String → World → Exit × World
  from_parsed (err e) out_path w = (parsing, w)
  from_parsed (ok scopes) out_path w = save_scopes scopes out_path w

  unfoldable pub generate : String → String → World → Exit × World
  generate spec_path out_path w = elim (read_file spec_path w) [
    | err e ↦ (reading, w)
    | ok text ↦ from_parsed (parse_scopes text) out_path w
  ]
