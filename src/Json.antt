-- ===== src/Json.antt =====
-- What encoding/json decodes into an `any`: map[string]any, []any, string and the rest.
use network_adapter.Prelude.{Bool, Option, none, some, List, [], ◌∷◌, Str}

mutual
  pub data Json : Type 0 where
    null : Json
    boolean : Bool → Json
    number : Str → Json
    string : Str → Json
    array : Elements → Json
    object : Members → Json

  pub data Elements : Type 0 where
    end : Elements
    element : Json → Elements → Elements

  -- The keys of an object are distinct, and a Go map has no order of its own: the order here is
  -- the one in which a `range` over it goes.
  pub data Members : Type 0 where
    no_more : Members
    member : Str → Json → Members → Members

unfoldable pub element_list : Elements → List Json
element_list end = []
element_list (element x xs) = x ∷ element_list xs

unfoldable pub member_list : Members → List (Str × Json)
member_list no_more = []
member_list (member k x ms) = (k, x) ∷ member_list ms

-- `v, ok := x.(string)`
unfoldable pub as_string : Json → Option Str
as_string (string s) = some s
as_string _ = none

-- `v, ok := x.(map[string]any)`
unfoldable pub as_object : Json → Option (List (Str × Json))
unfolding member_list
as_object (object ms) = some (member_list ms)
as_object _ = none

-- `v, ok := x.([]any)`
unfoldable pub as_array : Json → Option (List Json)
unfolding element_list
as_array (array xs) = some (element_list xs)
as_array _ = none
