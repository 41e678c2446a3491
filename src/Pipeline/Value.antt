-- ===== src/Pipeline/Value.antt =====
-- Decoded values and records: interpreter.go and expressions.go. A nil slice of records and an
-- empty one are one value here.
use network_adapter.Prelude.{
  ◌≡◌, refl, ap, ℕ, Bool, true, false, Option, none, some, List, [], ◌∷◌, map, suc, not, is_empty,
  Str, lookup, insert, get_or, ◌+◌,
}
use network_adapter.Text.{str, decimal}
use network_adapter.Json.{
  Json, null, boolean, number, string, array, object, Elements, end, element, Members, no_more,
  member, element_list, member_list,
}
use network_adapter.Pipeline.Fault.{Run, done, failed, ◌>>=◌}

-- map[string]any
abbrev pub Record : Type 0
Record = List (Str × Json)

-- What the steps call: JSONata (null where an expression gives nothing), %q, json.Marshal, the
-- %v, the numbers of Go's float64 by their decimal form
-- (as renderScalar writes them, their order, int(x), and the tests below zero and zero), strings.ToLower, url.ResolveReference, the
-- mapper, json.Unmarshal, a fresh UUID and the time.
pub record Engine : Type 0 where
  pub evaluate : Str → Record → Run Json
  pub quote : Str → Str
  pub encode : Json → Str
  pub number_text : Str → Str
  pub show : Json → Str
  pub number_lt : Str → Str → Bool
  pub number_floor : Str → ℕ
  pub is_negative : Str → Bool
  pub is_zero : Str → Bool
  pub to_lower : Str → Str
  pub resolve_reference : Str → Str → Run Str
  pub transform : Str → Json → Run Str
  pub decode : Str → Run Json
  pub uuid : Str
  pub now : Str

-- The counters of a run.
abbrev pub Counters : Type 0
Counters = List (Str × ℕ)

-- counters[name] += n
unfoldable pub count_by : Str → ℕ → Counters → Counters
unfolding lookup insert
count_by name n counters = insert name (get_or (lookup name counters) 0 + n) counters

unfoldable pub counter : Str → Counters → ℕ
unfolding lookup
counter name counters = get_or (lookup name counters) 0

-- %T
abbrev pub go_type : Json → Str
go_type null = str "<nil>"
go_type (boolean b) = str "bool"
go_type (number n) = str "float64"
go_type (string s) = str "string"
go_type (array xs) = str "[]interface {}"
go_type (object ms) = str "map[string]interface {}"

abbrev pub bool_text : Bool → Str
bool_text true = str "true"
bool_text false = str "false"

-- renderScalar
unfoldable pub render_scalar : Engine → Json → Str
render_scalar engine null = []
render_scalar engine (string s) = s
render_scalar engine (boolean b) = bool_text b
render_scalar engine (number n) = engine.number_text n
render_scalar engine v = engine.encode v

-- numeric
unfoldable pub numeric : Json → Option Str
numeric (number n) = some n
numeric _ = none

abbrev as_record : ℕ → Json → Run Record
as_record i (object ms) = done (member_list ms)
as_record i v =
    failed (str "item " ∷ decimal i ∷ str " is " ∷ go_type v ∷ str ", not an object" ∷ [])

records_from : ℕ → List Json → Run (List Record)
records_from i [] = done []
records_from i (v ∷ vs) =
    let rest = records_from (suc i) vs in as_record i v >>= λ r. rest >>= λ rs. done (r ∷ rs)

-- asRecords
unfoldable pub as_records : Json → Run (List Record)
unfolding records_from element_list member_list
as_records null = done []
as_records (array xs) = records_from 0 (element_list xs)
as_records (object ms) = done (member_list ms ∷ [])
as_records v = failed (str "expected a list of objects, got " ∷ go_type v ∷ [])

abbrev pub none_in : Run (List Record) → Bool
none_in (done rs) = is_empty rs
none_in _ = false

-- isEmpty
unfoldable pub is_empty_value : Json → Bool
unfolding as_records
is_empty_value v = none_in (as_records v)

-- A record, and a list of records, as a value.
unfoldable pub to_members : Record → Members
to_members [] = no_more
to_members ((k, v) ∷ r) = member k v (to_members r)

unfoldable pub to_elements : List Record → Elements
unfolding to_members
to_elements [] = end
to_elements (r ∷ rs) = element (object (to_members r)) (to_elements rs)

unfoldable pub of_records : List Record → Json
unfolding to_elements
of_records rs = array (to_elements rs)

-- toStrings
unfoldable pub to_strings : Engine → Json → List Str
unfolding render_scalar element_list
to_strings engine (array xs) = map (render_scalar engine) (element_list xs)
to_strings engine (string s) = s ∷ []
to_strings engine _ = []

abbrev some_text : Str → Bool
some_text s = not (is_empty s)

abbrev some_elements : Elements → Bool
some_elements end = false
some_elements (element x xs) = true

abbrev some_members : Members → Bool
some_members no_more = false
some_members (member k v ms) = true

-- The result of an expression, read as a condition.
unfoldable pub is_truthy : Engine → Json → Bool
is_truthy engine null = false
is_truthy engine (boolean b) = b
is_truthy engine (string s) = some_text s
is_truthy engine (number n) = not (engine.is_zero n)
is_truthy engine (array xs) = some_elements xs
is_truthy engine (object ms) = some_members ms

-- truthy: an expression that fails is an error, and never false.
unfoldable pub truthy : Engine → Str → Record → Run Bool
unfolding is_truthy
truthy engine expr record_ = engine.evaluate expr record_ >>= λ v. done (is_truthy engine v)

member_list-to_members : (r : Record) → member_list (to_members r) ≡ r
unfolding member_list to_members
member_list-to_members [] = refl
member_list-to_members ((k, v) ∷ r) = ap (λ t. (k, v) ∷ t) (member_list-to_members r)

records_from-to_elements :
    (i : ℕ) (rs : List Record) → records_from i (element_list (to_elements rs)) ≡ done rs
unfolding records_from element_list to_elements
records_from-to_elements i [] = refl
records_from-to_elements i (r ∷ rs) =
    rw (records_from-to_elements (suc i) rs) (rw (member_list-to_members r) refl)

-- A collection that is stored is the collection that is read.
pub as_records-of_records : (rs : List Record) → as_records (of_records rs) ≡ done rs
unfolding as_records of_records
as_records-of_records rs = records_from-to_elements 0 rs
