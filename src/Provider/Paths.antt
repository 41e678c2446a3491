-- ===== src/Provider/Paths.antt =====
-- paths.go: what a path reaches in a decoded payload.
use network_adapter.Prelude.{
  ℕ, Bool, true, false, Option, none, some, List, [], ◌∷◌, ◌++◌, if◌then◌else◌, is_empty, is_some,
  length, reverse, get_or, Str, lookup,
}
use network_adapter.Text.{str, strip_prefix, trim_space, split}
use network_adapter.Errors.{GoErr, plain}
use network_adapter.Json.{Json, as_string, as_object, as_array}

-- Paths
pub record Paths : Type 0 where
  pub provider_id : Str
  pub capability_code : Str

-- BecknV2
abbrev pub beckn_v2 : Paths
beckn_v2 = record {
  provider_id = str "message.contract.commitments[].offer.provider.id";
  capability_code = str "message.contract.commitments[].resources[].resourceAttributes.@type";
}

-- The text in front of arrayMarker, and none where the segment does not end in it.
unfoldable pub marked_name : Str → Option Str
marked_name segment = elim (strip_prefix (str "][") (reverse segment)) [
  | none ↦ none
  | some rest ↦ some (reverse rest)
]

-- strings.HasSuffix(segment, arrayMarker)
unfoldable pub is_marked : Str → Bool
is_marked segment = is_some (marked_name segment)

-- strings.TrimSuffix(segment, arrayMarker)
unfoldable pub field_name : Str → Str
field_name segment = get_or (marked_name segment) segment

abbrev field_of : Str → Option (List (Str × Json)) → Option Json
field_of name none = none
field_of name (some fields) = lookup name fields

-- `fields, ok := node.(map[string]any)` and `fields[name]`, none where either fails.
unfoldable pub child_of : Json → Str → Option Json
child_of node segment = field_of (field_name segment) (as_object node)

abbrev pub elements_of : Option (List Json) → List Json
elements_of none = []
elements_of (some es) = es

module _ {A : Type 0} where
  -- The results of all elements, one behind the other.
  unfoldable pub collect : (Json → List A) → List Json → List A
  collect f [] = []
  collect f (e ∷ es) = f e ++ collect f es

abbrev pub walk_child : Bool → (Json → List Json) → Option Json → List Json
walk_child marked rest none = []
walk_child false rest (some child) = rest child
walk_child true rest (some child) = collect rest (elements_of (as_array child))

-- walk
unfoldable pub walk : List Str → Json → List Json
walk [] node = node ∷ []
walk (segment ∷ segments) node =
    walk_child (is_marked segment) (λ n. walk segments n) (child_of node segment)

abbrev text_of : Option Str → List Str → List Str
text_of none found = found
text_of (some s) found = s ∷ found

-- The strings among the leaves.
unfoldable pub texts : List Json → List Str
texts [] = []
texts (leaf ∷ leaves) = text_of (as_string leaf) (texts leaves)

-- LeavesAt
unfoldable pub leaves_at : Json → Str → List Json
leaves_at node path = walk (split b'.' path) node

-- ValuesAt
unfoldable pub values_at : Json → Str → List Str
values_at node path = texts (walk (split b'.' path) node)

abbrev count_child : Bool → (Json → ℕ) → Option Json → ℕ
count_child marked rest none = 0
count_child true rest (some child) = length (elements_of (as_array child))
count_child false rest (some child) = rest child

-- The loop of countAt.
unfoldable pub count_along : List Str → Json → ℕ
count_along [] node = 0
count_along (segment ∷ segments) node =
    count_child (is_marked segment) (λ n. count_along segments n) (child_of node segment)

-- countAt
unfoldable pub count_at : Json → Str → ℕ
count_at node path = count_along (split b'.' path) node

unfoldable pub has_blank : List Str → Bool
has_blank [] = false
has_blank (segment ∷ segments) =
    if is_empty (trim_space (field_name segment)) then true else has_blank segments

unfoldable pub check_path : Str → Str → Option GoErr
check_path name path =
    if is_empty (trim_space path)
    then some (plain (str "binding path " ++ (name ++ str " is empty")))
    else if has_blank (split b'.' path)
    then some (
        plain (
          str "binding path " ++ (name ++ (str " (\"" ++ (path ++ str "\") has a blank segment")))))
    else none

abbrev pub or_next : Option GoErr → Option GoErr → Option GoErr
or_next none next = next
or_next (some e) next = some e

-- Validate, in one of the two orders in which `range` visits the halves.
unfoldable pub validate : Paths → Option GoErr
validate p =
    or_next (check_path (str "providerIdAt") p.provider_id)
      (check_path (str "capabilityCodeAt") p.capability_code)
