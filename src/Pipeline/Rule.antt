-- ===== src/Pipeline/Rule.antt =====
-- The safety rule of a publish step, and its address: refuseWhenRule, checkPublishURL and
-- PublishCatalogs of interpreter.go.
use network_adapter.Prelude.{
  ℕ, Bool, ◌&&◌, ◌||◌, Option, none, some, [], ◌∷◌, not, if◌then◌else◌, is_empty, leb, ltb, ◌==◌,
  Str, str_eq,
}
use network_adapter.Text.{str, trim_space, strip_prefix, decimal, atoi, GoInt}
use network_adapter.Pipeline.Fault.{Run, done, failed}
use network_adapter.Pipeline.Value.{Counters, counter}
use network_adapter.Pipeline.Spec.{Publish}

abbrev is_letter : ℕ → Bool
is_letter c = (leb b'A' c && leb c b'Z') || (leb b'a' c && leb c b'z')

abbrev is_digit : ℕ → Bool
is_digit c = leb b'0' c && leb c b'9'

abbrev is_word : ℕ → Bool
is_word c = is_letter c || (is_digit c || c == b'_')

-- \s
abbrev is_blank : ℕ → Bool
is_blank c = c == 9 || (c == 10 || (c == 12 || (c == 13 || c == 32)))

-- The longest front of a text whose characters pass a test, and the rest.
unfoldable pub span : (ℕ → Bool) → Str → Str × Str
span p [] = ([], [])
span p (c ∷ s) = let rest = span p s in if p c then (c ∷ rest.0, rest.1) else ([], c ∷ s)

abbrev in_range : Str → Option GoInt → Option (Str × ℕ)
in_range name none = none
in_range name (some n) = some (name, n.magnitude)

abbrev all_digits : Str → Str × Str → Option (Str × ℕ)
all_digits name (ds, []) = if is_empty ds then none else in_range name (atoi ds)
all_digits name (ds, c ∷ s) = none

abbrev skip_blanks : Str → Str
skip_blanks s = (span is_blank s).1

abbrev behind_sign : Str → Str → Option (Str × ℕ)
behind_sign name [] = none
behind_sign name (c ∷ s) =
    if c == b'>' then all_digits name (span is_digit (skip_blanks s)) else none

abbrev behind_name : Str × Str → Option (Str × ℕ)
behind_name ([], s) = none
behind_name (c ∷ name, s) = if is_letter c then behind_sign (c ∷ name) (skip_blanks s) else none

-- refuseWhenRule: the counter and the tolerated count of `collection.<counter> > <N>`.
unfoldable pub refuse_when_rule : Str → Option (Str × ℕ)
unfolding trim_space strip_prefix span atoi
refuse_when_rule rule = elim (strip_prefix (str "collection.") (trim_space rule)) [
  | none ↦ none
  | some s ↦ behind_name (span is_word s)
]

module _ (quote : Str → Str) where
  abbrev pub judged : Str → Counters → Option (Str × ℕ) → Run (Unit {0})
  judged rule collected none = failed (
      str "publish.refuseWhen is "
      ∷ quote rule
      ∷ str
          "; this step understands only `collection.<counter> > <N>` and will not guess at another rule"
      ∷ [])
  judged rule collected (some (name, threshold)) =
      if ltb threshold (counter name collected)
      then failed (
          str "refusing to publish: "
          ∷ name
          ∷ str " is "
          ∷ decimal (counter name collected)
          ∷ str ", above the "
          ∷ decimal threshold
          ∷ str " tolerated (publish.refuseWhen: "
          ∷ rule
          ∷ str ")"
          ∷ [])
      else done tt

  -- The safety rule of PublishCatalogs.
  unfoldable pub check_rule : Str → Counters → Run (Unit {0})
  unfolding trim_space refuse_when_rule counter decimal
  check_rule refuse_when collected =
      let rule = trim_space refuse_when in
      if is_empty rule then done tt else judged rule collected (refuse_when_rule rule)

  abbrev expected_publish_url : Str
  expected_publish_url = str "${inputs.publishUrl}/publish"

  -- checkPublishURL
  unfoldable pub check_publish_url : Publish → Run (Unit {0})
  unfolding trim_space str_eq
  check_publish_url spec =
      if not (str_eq (trim_space spec.url) expected_publish_url)
      then failed (
          str "publish.url is "
          ∷ quote (trim_space spec.url)
          ∷ str ", but this step publishes to inputs.publishUrl and would ignore it; only "
          ∷ quote expected_publish_url
          ∷ str " is honoured"
          ∷ [])
      else done tt
