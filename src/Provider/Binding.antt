-- ===== src/Provider/Binding.antt =====
-- binding.go and bindingFor of serve.go: the binding that a payload asks for.
use network_adapter.Prelude.{
  ℕ, Bool, true, false, Option, none, some, List, [], ◌∷◌, ◌++◌, if◌then◌else◌, is_empty, length,
  any, ltb, Str, str_eq,
}
use network_adapter.Text.{str, join, decimal, before_byte, trim_space}
use network_adapter.Errors.{GoErr, plain}
use network_adapter.Json.{Json}
use network_adapter.Provider.Paths.{Paths, values_at, count_at}

-- Binding
pub record Binding : Type 0 where
  pub participant_id : Str
  pub capability_code : Str

-- Key
unfoldable pub key : Binding → Str
key b = b.participant_id ++ (b'|' ∷ b.capability_code)

abbrev cut_at_bar : Str → Option Str → Str
cut_at_bar s none = s
cut_at_bar s (some provider) = provider

-- providerIDFrom
unfoldable pub provider_id_from : Str → Str
provider_id_from s = trim_space (cut_at_bar s (before_byte b'|' s))

-- A binding, errNoBinding, or another error.
pub data Found : Type 0 where
  bound : Binding → Found
  no_binding : Found
  refused : GoErr → Found

-- appendDistinct
unfoldable pub append_distinct : List Str → Str → List Str
append_distinct values value =
    if is_empty value
    then values
    else if any (λ v. str_eq v value) values
    then values
    else values ++ (value ∷ [])

-- The loop of distinct.
unfoldable pub distinct_into : List Str → List Str → List Str
distinct_into out [] = out
distinct_into out (value ∷ values) = distinct_into (append_distinct out value) values

-- distinct
unfoldable pub distinct : List Str → List Str
distinct values = distinct_into [] values

abbrev many : List Str → Str → Found
many names what = refused (
    plain (
      str "payload names "
      ++ (decimal (length names)
          ++ (str " "
              ++ (what
                  ++ (str " ("
                      ++ (join (str ", ") names ++ str "); one request maps to one call")))))))

abbrev pub one_binding : List Str → List Str → Found
one_binding [] types = no_binding
one_binding (p ∷ ps) [] = no_binding
one_binding (p ∷ q ∷ ps) (t ∷ ts) = many (p ∷ q ∷ ps) (str "providers")
one_binding (p ∷ []) (t ∷ u ∷ ts) = many (t ∷ u ∷ ts) (str "resource types")
one_binding (p ∷ []) (t ∷ []) = bound (record { participant_id = p; capability_code = t })

abbrev too_many : ℕ → Found
too_many n = refused (
    plain (
      str "payload carries "
      ++ (decimal n
          ++ (str " commitments; one request maps to one call, "
              ++ str "so send them separately rather than have all but the first dropped"))))

-- bindingIn
unfoldable pub binding_in : Paths → Json → Found
binding_in p payload =
    if ltb 1 (count_at payload p.provider_id)
    then too_many (count_at payload p.provider_id)
    else one_binding (distinct (values_at payload p.provider_id))
        (distinct (values_at payload p.capability_code))

-- The Step of common.go, as far as these functions read it: `serves` looks in its bindingKeys.
unfoldable pub serves : List Str → Str → Bool
serves keys k = any (λ x. str_eq x k) keys

unfoldable pub names_capability : List Str → Str → List Str → Bool
names_capability keys provider types =
    any (λ t. serves keys (key (record { participant_id = provider; capability_code = t }))) types

-- namesServed
unfoldable pub names_served : List Str → Paths → Json → Bool
names_served keys p payload =
    any (λ provider. names_capability keys provider (values_at payload p.capability_code))
      (values_at payload p.provider_id)

abbrev or_found : Option Binding → Binding → Option Binding
or_found none b = some b
or_found (some a) b = some a

abbrev at_end : Option Binding → Found
at_end none = no_binding
at_end (some b) = bound b

-- One round of the loop of bindingFor: what binding_in found, whether the pair is a later one,
-- whether the payload names a served binding there, and the rest of the loop.
abbrev pub search_step :
    List Str → Bool → Bool → (Option Binding → Found) → Option Binding → Found → Found
search_step keys later named rest first no_binding = rest first
search_step keys later named rest first (refused e) =
    if later then (if named then refused e else rest first) else refused e
search_step keys later named rest first (bound b) =
    if serves keys (key b) then bound b else rest (or_found first b)

unfoldable pub search : List Str → Json → Bool → List Paths → Option Binding → Found
search keys payload later [] first = at_end first
search keys payload later (p ∷ ps) first =
    search_step keys later (names_served keys p payload) (λ f. search keys payload true ps f) first
      (binding_in p payload)

-- bindingFor, over a decoded payload.
unfoldable pub binding_for : List Str → List Paths → Json → Found
binding_for keys paths payload = search keys payload false paths none
