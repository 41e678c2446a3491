-- ===== src/Pipeline/Order.antt =====
-- The orders of a catalog: sortRecords and sortRecordsBy of interpreter.go. A stable sort is the
-- insertion sort of Go's sort package, which it agrees with on every strict weak order.
use network_adapter.Prelude.{
  Bool, false, ◌||◌, Option, some, List, [], ◌∷◌, reverse, if◌then◌else◌, get_or, Str, str_eq,
  lookup,
}
use network_adapter.Text.{str, str_lt, trim_space, equal_fold}
use network_adapter.Json.{Json, null}
use network_adapter.Pipeline.Value.{Engine, Record, render_scalar, numeric}

module _ {A : Type 0} (less : A → A → Bool) where
  -- Into a list that is sorted from its end, behind all that are not greater.
  unfoldable pub insert_sorted : A → List A → List A
  insert_sorted x [] = x ∷ []
  insert_sorted x (y ∷ ys) =
      let rest = insert_sorted x ys in if less x y then y ∷ rest else x ∷ y ∷ ys

  unfoldable pub insert_all : List A → List A → List A
  unfolding insert_sorted
  insert_all [] sorted = sorted
  insert_all (x ∷ xs) sorted = insert_all xs (insert_sorted x sorted)

  -- sort.SliceStable
  unfoldable pub sort_stable : List A → List A
  unfolding insert_all
  sort_stable xs = reverse (insert_all xs [])

-- sort.Strings
unfoldable pub sort_strings : List Str → List Str
unfolding sort_stable str_lt
sort_strings ss = sort_stable str_lt ss

module _ (engine : Engine) where
  -- record[key], nil where it is missing.
  unfoldable pub value_at : Str → Record → Json
  unfolding lookup
  value_at key fields = get_or (lookup key fields) null

  abbrev less_by : Option Str → Option Str → Bool → Bool
  less_by (some m) (some n) texts = engine.number_lt m n
  less_by _ _ texts = texts

  -- left < right under one key: numbers as numbers, anything else as text.
  unfoldable pub key_less : Str → Record → Record → Bool
  unfolding value_at numeric render_scalar str_lt
  key_less by a b =
      less_by (numeric (value_at by a)) (numeric (value_at by b))
        (str_lt (render_scalar engine (value_at by a)) (render_scalar engine (value_at by b)))

  -- sortRecords
  unfoldable pub sort_records : Str → Str → List Record → List Record
  unfolding sort_stable key_less equal_fold
  sort_records by direction rows =
      sort_stable
        (λ a b. if equal_fold direction (str "desc") then key_less by b a else key_less by a b) rows

  abbrev shown_text : Json → Str
  shown_text v = engine.to_lower (trim_space (render_scalar engine v))

  abbrev less_text : Str → Str → Bool → Bool
  less_text s t rest = if str_eq s t then rest else str_lt s t

  abbrev less_value : Option Str → Option Str → Bool → Bool → Bool
  less_value (some m) (some n) texts rest =
      if engine.number_lt m n || engine.number_lt n m then engine.number_lt m n else rest
  less_value _ _ texts rest = texts

  -- The comparison of sortRecordsBy, key by key.
  unfoldable pub keys_less : List Str → Record → Record → Bool
  unfolding value_at numeric render_scalar trim_space str_eq str_lt
  keys_less [] a b = false
  keys_less (key ∷ keys) a b =
      let rest = keys_less keys a b in
      less_value (numeric (value_at key a)) (numeric (value_at key b))
        (less_text (shown_text (value_at key a)) (shown_text (value_at key b)) rest) rest

  -- sortRecordsBy
  unfoldable pub sort_records_by : List Str → List Record → List Record
  unfolding sort_stable keys_less
  sort_records_by keys rows = sort_stable (keys_less keys) rows
