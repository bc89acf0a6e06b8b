-- ===== src/Generator/Tests.antt =====
-- Runs of the generator at tools that keep one file, and the checked-in lists.
use Prim.Native.String.{◌++◌}
use mathlib.Core.List.Perm
use mathlib.Core.List.{Nodup, Nodup-cons, Nodup-nil, not-mem-nil, eq-or-mem_of_mem-cons}
use mathlib.Core.Logic.Or
use mathlib.Core.HLevel.{⊥_prop}
use evesso.Prelude.{
  arith, ◌≡◌, ◌≢◌, refl, String, [], ◌∷◌, str_eq, if◌then◌else◌, eq_iff, true, inl, inr, Bool-cases,
}
use evesso.Exec.{remote, Result, ok, err}
use evesso.Claims.Sorting.{sort_strings, str_leb}
use evesso.Generator.{Scopes, Tools, Exit, zero_scopes, keys, scope_of, source_text, generate}
use evesso.Generator.Order.{generate-order, IsReordered, ranging}
use evesso.Generator.Output.{swagger_scopes, all_scopes}

-- ALL_SCOPES are the keys of swagger_scopes, in order.
all_scopes-sort : sort_strings (keys swagger_scopes) ≡ all_scopes
unfolding sort_strings str_leb
all_scopes-sort = refl

abbrev two : Scopes
two = ("b.v1", "second") ∷ ("a.v1", "first") ∷ []

abbrev two_the_other_way : Scopes
two_the_other_way = ("a.v1", "first") ∷ ("b.v1", "second") ∷ []

abbrev quoted : String → String
quoted s = "\"" ++ (s ++ "\"")

-- Specifications are named by what parses.
abbrev parse : Scopes → String → Result Scopes
parse scopes text =
    if str_eq text "two" then ok scopes else if str_eq text "none" then ok [] else err (remote 1)

abbrev disk : Tools
disk = record {
  World = String;
  quote = quoted;
  read_file = λ path w. if str_eq path "missing" then err (remote 0) else ok path;
  parse_scopes = parse two;
  format_source = λ text. ok text;
  write_file = λ path text w. (ok tt, text);
}

two-text :
    (generate disk "two" "scopes_gen.go" "before").1
    ≡ "// Code generated by internal/gen/scopes; DO NOT EDIT.\n\npackage evesso\n\nvar swagger_scopes = map[string]string{\n\t\"a.v1\": \"first\",\n\t\"b.v1\": \"second\",\n}\n\nvar ALL_SCOPES = []string{\n\t\"a.v1\",\n\t\"b.v1\",\n}\n"
unfolding generate source_text sort_strings str_leb scope_of
two-text = refl

none-exit : generate disk "none" "scopes_gen.go" "before" ≡ (zero_scopes, "before")
unfolding generate
none-exit = refl

missing-exit : (generate disk "missing" "scopes_gen.go" "before") ≡ (Exit.reading, "before")
unfolding generate
missing-exit = refl

apart : str_eq "b.v1" "a.v1" ≡ true → ⊥
apart e = ground (arith, e)

keys-differ : ◌≢◌ {A = String} "b.v1" "a.v1"
keys-differ e = apart ((eq_iff "b.v1" "a.v1").1 e)

two-Nodup : Nodup (keys two)
two-Nodup = Nodup-cons.1 (
  λ m. Or.elim ⊥_prop (eq-or-mem_of_mem-cons m) keys-differ (λ k. not-mem-nil k),
  Nodup-cons.1 (λ k. not-mem-nil k, Nodup-nil),
)

parse-IsReordered : (text : String) → IsReordered (parse two text) (parse two_the_other_way text)
parse-IsReordered text = elim (Bool-cases (str_eq text "two")) [
  | inl a ↦ rw a (Perm.swap ("a.v1", "first") ("b.v1", "second") [], two-Nodup)
  | inr b ↦ elim (Bool-cases (str_eq text "none")) [
    | inl c ↦ rw (b, c) (Perm.rfl, Nodup-nil)
    | inr d ↦ rw (b, d) refl
  ]
]

generate-order_example :
    generate disk "two" "scopes_gen.go" "before"
    ≡ generate (ranging disk (parse two_the_other_way)) "two" "scopes_gen.go" "before"
generate-order_example =
    generate-order disk (parse two_the_other_way) parse-IsReordered "two" "scopes_gen.go" "before"
