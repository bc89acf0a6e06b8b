-- ===== src/Generator/Runs.antt =====
-- What one run of the command does to the files, by the way it ends.
use mathlib.Core.List.{cons≢nil}
use evesso.Prelude.{arith, ◌≡◌, ◌≢◌, refl, ◌⊎◌, inl, inr, String, [], ◌∷◌}
use evesso.Exec.{ok, Result-cases}
use evesso.Generator.{
  Scopes, Tools, Exit, written, writing, source_text, generate, wrote, save_scopes, from_parsed,
}

module _ (t : Tools) where
  open t use {World}

  -- The specification was read and parsed, it has at least one scope, what was rendered from its
  -- scopes is Go source, and the run is the one call of os.WriteFile on the formatted text.
  pub record HasSaved (spec_path out_path : String) (w : World) (out : Exit × World) : Type 0 where
    pub spec : String
    pub scopes : Scopes
    pub text : String
    pub was_read : t.read_file spec_path w ≡ ok spec
    pub was_parsed : t.parse_scopes spec ≡ ok scopes
    pub is_nonempty : scopes ≢ []
    pub was_formatted : t.format_source (source_text t.quote scopes) ≡ ok text
    pub was_given : out ≡ (wrote (t.write_file out_path text w).0, (t.write_file out_path text w).1)

  -- Left as it was, with the message of the step that failed.
  abbrev pub IsUntouched : World → Exit × World → Type 0
  IsUntouched w out = (out.1 ≡ w) × (out.0 ≢ written) × (out.0 ≢ writing)

  save_scopes-runs :
      (spec_path out_path : String) (w : World) (spec : String) (scopes : Scopes)
      → t.read_file spec_path w ≡ ok spec
      → t.parse_scopes spec ≡ ok scopes
      → HasSaved spec_path out_path w (save_scopes t scopes out_path w)
        ⊎ IsUntouched w (save_scopes t scopes out_path w)
  save_scopes-runs spec_path out_path w spec [] a b = inr (ground arith)
  save_scopes-runs spec_path out_path w spec (s ∷ rest) a b =
      elim (Result-cases (t.format_source (source_text t.quote (s ∷ rest)))) [
        | inl (text, e) ↦ inl record {
          spec = spec;
          scopes = s ∷ rest;
          text = text;
          was_read = a;
          was_parsed = b;
          is_nonempty = cons≢nil;
          was_formatted = e;
          was_given = rw (save_scopes, e) refl;
        }
        | inr (x, e) ↦ inr (rw (save_scopes, e) ground arith)
      ]

  -- A run of the command either leaves every file as it was and says which step failed, or it has read
  -- and parsed the specification, found at least one scope, rendered Go source, and made one call of
  -- os.WriteFile, with the formatted text, whose result decides how it ends.
  pub generate-runs :
      (spec_path out_path : String) (w : World)
      → HasSaved spec_path out_path w (generate t spec_path out_path w)
        ⊎ IsUntouched w (generate t spec_path out_path w)
  unfolding generate
  generate-runs spec_path out_path w = elim (Result-cases (t.read_file spec_path w)) [
    | inl (spec, e) ↦ elim (Result-cases (t.parse_scopes spec)) [
      | inl (scopes, f) ↦
          rw (generate, e, from_parsed, f) (save_scopes-runs spec_path out_path w spec scopes e f)
      | inr (x, f) ↦ inr (rw (generate, e, from_parsed, f) ground arith)
    ]
    | inr (x, e) ↦ inr (rw (generate, e) ground arith)
  ]
