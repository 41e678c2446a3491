-- ===== src/Pipeline/Expand.antt =====
-- The placeholders ${…} in a text: expressions.go.
use network_adapter.Prelude.{
  ℕ, zero, suc, ◌+◌, Option, none, some, [], ◌∷◌, ◌++◌, if◌then◌else◌, is_empty, length, Str,
}
use network_adapter.Text.{str, strip_prefix, before_byte}
use network_adapter.Pipeline.Fault.{Run, done, ◌>>=◌}

abbrev not_empty : Option Str → Option Str
not_empty none = none
not_empty (some inner) = if is_empty inner then none else some inner

-- The submatch of `placeholder`, `\$\{([^}]+)\}`, at the front of a text.
unfoldable pub placeholder_at : Str → Option Str
unfolding strip_prefix before_byte
placeholder_at s = elim (strip_prefix (str "${") s) [
  | none ↦ none
  | some rest ↦ not_empty (before_byte b'}' rest)
]

-- placeholder.ReplaceAllStringFunc, where the first error ends it; `skip` characters belong to the
-- match before.
unfoldable pub replace_from : (Str → Run Str) → ℕ → Str → Run Str
unfolding placeholder_at
replace_from f skip [] = done []
replace_from f (suc skip) (c ∷ s) = replace_from f skip s
replace_from f zero (c ∷ s) = elim (placeholder_at (c ∷ s)) [
  | none ↦ replace_from f zero s >>= λ rest. done (c ∷ rest)
  | some inner ↦ f inner >>= λ t. replace_from f (length inner + 2) s >>= λ rest. done (t ++ rest)
]

unfoldable pub replace_all : (Str → Run Str) → Str → Run Str
unfolding replace_from
replace_all f s = replace_from f 0 s
