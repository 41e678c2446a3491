-- ===== src/Router/Invariant.antt =====
-- What every route of a loaded table satisfies.
use network_adapter.Prelude.{
  ◌≡◌, ◌&&◌, ◌||◌, Bool, true, false, Option, none, some, [], ◌∷◌, arith, Str, str_eq, List,
  is_some, inl, inr, Option-cases, All, subst,
}
use network_adapter.Model.{Route, Url}
use network_adapter.Result.{Res, ok, >>=-eq-ok}
use network_adapter.Router.Load.{
  Rule, Table, target_url, target_publisher, is_participant_type, validate_rule, validate_rules,
  build_route, store_route, add_endpoint, add_endpoints, add_rules, stored_domain, ensure, put,
}
use network_adapter.Router.Table.{AllRoutes, AllRoutes-put, AllRoutes-ensure}

-- The route is not nil, its target type is one of the known ones, and a `url` route has a URL.
abbrev pub routable : Option Route → Bool
routable none = false
routable (some r) =
    str_eq r.target_type target_publisher
    || (is_participant_type r.target_type || (str_eq r.target_type target_url && is_some r.url))

abbrev pub IsRoutable : Option Route → Type 0
IsRoutable r = routable r ≡ true

module _ (url_parse : Str → Res Url) where
  abbrev pub IsValid : Rule → Type 0
  IsValid rule = validate_rule url_parse rule ≡ none

  pub validate_rules-All :
      (rules : List Rule) → validate_rules url_parse rules ≡ none → All IsValid rules
  unfolding validate_rules
  validate_rules-All [] h = tt
  validate_rules-All (rule ∷ rules) h = elim (Option-cases (validate_rule url_parse rule)) [
    | inl e ↦ (e, validate_rules-All rules (ground arith))
    | inr (x, e) ↦ cc
  ]

  build_route-IsRoutable :
      (rule : Rule) (endpoint : Str) {r : Option Route}
      → IsValid rule
      → build_route url_parse rule endpoint ≡ ok r
      → IsRoutable r
  unfolding validate_rule build_route is_participant_type
  build_route-IsRoutable rule endpoint {r} valid h = ground arith

  pub store_route-eq-ok :
      (rule : Rule) (table : Table) (endpoint : Str) (r : Option Route) {t : Table}
      → store_route url_parse rule table endpoint r ≡ ok t
      → put (stored_domain rule) rule.version endpoint r table ≡ t
  unfolding store_route
  store_route-eq-ok rule table endpoint r h = ground arith

  add_endpoint-IsRoutable :
      (rule : Rule) (table : Table) (endpoint : Str) {t : Table}
      → IsValid rule
      → AllRoutes IsRoutable table
      → add_endpoint url_parse rule table endpoint ≡ ok t
      → AllRoutes IsRoutable t
  unfolding add_endpoint
  add_endpoint-IsRoutable rule table endpoint valid inv h =
      let (r, built, stored) =
        >>=-eq-ok (build_route url_parse rule endpoint) (store_route url_parse rule table endpoint)
          h in
      subst (AllRoutes IsRoutable) (store_route-eq-ok rule table endpoint r stored) (
        AllRoutes-put IsRoutable _ _ _ r table (build_route-IsRoutable rule endpoint valid built)
          inv)

  add_endpoints-IsRoutable :
      (rule : Rule) (table : Table) (endpoints : List Str) {t : Table}
      → IsValid rule
      → AllRoutes IsRoutable table
      → add_endpoints url_parse rule table endpoints ≡ ok t
      → AllRoutes IsRoutable t
  unfolding add_endpoints
  add_endpoints-IsRoutable rule table [] {t} valid inv h =
      let p : table ≡ t = cc in subst (AllRoutes IsRoutable) p inv
  add_endpoints-IsRoutable rule table (endpoint ∷ endpoints) {t} valid inv h =
      let (table', added, rest) =
        >>=-eq-ok (add_endpoint url_parse rule table endpoint)
          (λ t'. add_endpoints url_parse rule t' endpoints) h in
      add_endpoints-IsRoutable rule table' endpoints valid
        (add_endpoint-IsRoutable rule table endpoint valid inv added) rest

  pub add_rules-IsRoutable :
      (table : Table) (rules : List Rule) {t : Table}
      → All IsValid rules
      → AllRoutes IsRoutable table
      → add_rules url_parse table rules ≡ ok t
      → AllRoutes IsRoutable t
  unfolding add_rules
  add_rules-IsRoutable table [] {t} valid inv h =
      let p : table ≡ t = cc in subst (AllRoutes IsRoutable) p inv
  add_rules-IsRoutable table (rule ∷ rules) {t} valid inv h =
      let start = ensure (stored_domain rule) rule.version table in
      let (table', added, rest) =
        >>=-eq-ok (add_endpoints url_parse rule start rule.endpoints)
          (λ t'. add_rules url_parse t' rules) h in
      add_rules-IsRoutable table' rules valid.1
        (add_endpoints-IsRoutable rule start rule.endpoints valid.0
          (AllRoutes-ensure IsRoutable _ _ table inv) added)
        rest
