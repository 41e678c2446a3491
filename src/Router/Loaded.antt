-- ===== src/Router/Loaded.antt =====
-- What a configuration that loads promises.
use network_adapter.Prelude.{
  ◌≡◌, ◌∙◌, ◌&&◌, Bool, true, Option, none, some, [], ◌∷◌, arith, Str, str_eq, List, ap, any,
  if◌then◌else◌, str_eq_iff, lookup,
}
use network_adapter.Model.{Route, Url}
use network_adapter.Result.{Res, ok, err, >>=-eq-ok, map_err, map_err-eq-ok}
use network_adapter.Text.{str}
use network_adapter.Version.{is_v2_version}
use network_adapter.Router.Load.{
  Rule, Table, validate_rules, new, checked, load_rules, load_text, read_failed, yaml_failed,
  build_route, store_route, add_endpoint, add_endpoints, add_rules, stored_domain, ensure,
}
use network_adapter.Router.Table.{AllRoutes, table_get, table_get-put, table_get-ensure}
use network_adapter.Router.Invariant.{
  IsRoutable, validate_rules-All, store_route-eq-ok, add_rules-IsRoutable,
}

module _ (url_parse : Str → Res Url) where
  checked-IsRoutable :
      (rules : List Rule) {t : Table}
      → validate_rules url_parse rules ≡ none
      → add_rules url_parse [] rules ≡ ok t
      → AllRoutes IsRoutable t
  checked-IsRoutable rules valid h =
      add_rules-IsRoutable url_parse [] rules (validate_rules-All url_parse rules valid) tt h

  checked-eq-ok :
      (rules : List Rule) {t : Table}
      → checked url_parse rules ≡ ok t
      → (validate_rules url_parse rules ≡ none) × (add_rules url_parse [] rules ≡ ok t)
  checked-eq-ok rules h = ground arith

  load_rules-eq-ok :
      (file : Str → Res Str) (unmarshal : Str → Res (List Rule)) (path : Str) {t : Table}
      → load_rules url_parse file unmarshal path ≡ ok t
      → (text : Str) × (load_text url_parse unmarshal text ≡ ok t)
  unfolding load_rules
  load_rules-eq-ok file unmarshal [] h = cc
  load_rules-eq-ok file unmarshal (c ∷ path) h =
      let (text, read, rest) =
        >>=-eq-ok (map_err (read_failed url_parse (c ∷ path)) (file (c ∷ path)))
          (load_text url_parse unmarshal) h in
      (text, rest)

  -- A successful start decoded a text, found every rule valid and added them all.
  pub new-eq-ok :
      (file : Str → Res Str) (unmarshal : Str → Res (List Rule)) (config : Option Str) {t : Table}
      → new url_parse file unmarshal config ≡ ok t
      → (rules : List Rule) × (validate_rules url_parse rules ≡ none)
        × (add_rules url_parse [] rules ≡ ok t)
  unfolding new
  new-eq-ok file unmarshal none h = cc
  new-eq-ok file unmarshal (some path) h =
      let (text, loaded) = load_rules-eq-ok file unmarshal path (map_err-eq-ok _ _ h) in
      let (rules, decoded, checks) =
        >>=-eq-ok (map_err (yaml_failed url_parse) (unmarshal text)) (checked url_parse) loaded in
      let (valid, added) = checked-eq-ok rules checks in (rules, valid, added)

  -- Every route of a table that New returns is set, has a known target type, and has its URL if it
  -- is a `url` route.
  pub new-IsRoutable :
      (file : Str → Res Str) (unmarshal : Str → Res (List Rule)) (config : Option Str) {t : Table}
      → new url_parse file unmarshal config ≡ ok t
      → AllRoutes IsRoutable t
  new-IsRoutable file unmarshal config h =
      let (rules, valid, added) = new-eq-ok file unmarshal config h in
      checked-IsRoutable rules valid added

  -- The rule writes the route of these three keys.
  abbrev pub covers : Rule → Str → Str → Str → Bool
  covers rule d v e =
      str_eq (stored_domain rule) d
      && (str_eq rule.version v && any (λ x. str_eq x e) rule.endpoints)

  abbrev value_of : Res (Option Route) → Option Route
  value_of (ok r) = r
  value_of (err e) = none

  -- The specification: the last rule that covers the keys gives the route.
  abbrev pub last_covering :
      Option (Option Route) → List Rule → Str → Str → Str → Option (Option Route)
  last_covering found [] d v e = found
  last_covering found (rule ∷ rules) d v e =
      last_covering
        (if covers rule d v e then some (value_of (build_route url_parse rule e)) else found) rules
        d v e

  add_endpoint-table_get :
      (rule : Rule) (table : Table) (endpoint : Str) {t : Table} (d v e : Str)
      → add_endpoint url_parse rule table endpoint ≡ ok t
      → table_get t d v e ≡ (
          if str_eq (stored_domain rule) d && (str_eq rule.version v && str_eq endpoint e)
          then some (value_of (build_route url_parse rule e))
          else table_get table d v e)
  unfolding add_endpoint
  add_endpoint-table_get rule table endpoint {t} d v e h =
      let (r, built, stored) =
        >>=-eq-ok (build_route url_parse rule endpoint) (store_route url_parse rule table endpoint)
          h in
      ground (
        arith,
        store_route-eq-ok url_parse rule table endpoint r stored,
        table_get-put (stored_domain rule) rule.version endpoint r table d v e,
        str_eq_iff endpoint e,
        built,
      )

  add_endpoints-table_get :
      (rule : Rule) (table : Table) (endpoints : List Str) {t : Table} (d v e : Str)
      → add_endpoints url_parse rule table endpoints ≡ ok t
      → table_get t d v e ≡ (
          if str_eq (stored_domain rule) d
            && (str_eq rule.version v && any (λ x. str_eq x e) endpoints)
          then some (value_of (build_route url_parse rule e))
          else table_get table d v e)
  unfolding add_endpoints
  add_endpoints-table_get rule table [] {t} d v e h =
      let p : table ≡ t = cc in rw (← p) (ground arith)
  add_endpoints-table_get rule table (endpoint ∷ endpoints) {t} d v e h =
      let (table', added, rest) =
        >>=-eq-ok (add_endpoint url_parse rule table endpoint)
          (λ t'. add_endpoints url_parse rule t' endpoints) h in
      ground (
        arith,
        add_endpoint-table_get rule table endpoint d v e added,
        add_endpoints-table_get rule table' endpoints d v e rest,
      )

  add_rules-table_get :
      (table : Table) (rules : List Rule) {t : Table} (d v e : Str)
      → add_rules url_parse table rules ≡ ok t
      → table_get t d v e ≡ last_covering (table_get table d v e) rules d v e
  unfolding add_rules
  add_rules-table_get table [] {t} d v e h = let p : table ≡ t = cc in rw (← p)
  add_rules-table_get table (rule ∷ rules) {t} d v e h =
      let start = ensure (stored_domain rule) rule.version table in
      let (table', added, rest) =
        >>=-eq-ok (add_endpoints url_parse rule start rule.endpoints)
          (λ t'. add_rules url_parse t' rules) h in
      add_rules-table_get table' rules d v e rest
      ∙ ap (λ o. last_covering o rules d v e)
          (ground (
            arith,
            add_endpoints-table_get rule start rule.endpoints d v e added,
            table_get-ensure (stored_domain rule) rule.version table d v e,
          ))

  -- The table answers as the specification says: for three keys, the route of the last rule that
  -- covers them, and nothing where no rule does.
  pub add_rules-last_covering :
      (rules : List Rule) {t : Table} (d v e : Str)
      → add_rules url_parse [] rules ≡ ok t
      → table_get t d v e ≡ last_covering none rules d v e
  unfolding lookup
  add_rules-last_covering rules d v e h = add_rules-table_get [] rules d v e h

  store_route-guard :
      (rule : Rule) (table : Table) (endpoint : Str) (r : Option Route) {t : Table}
      → store_route url_parse rule table endpoint r ≡ ok t
      → is_v2_version rule.version ≡ true
      → table_get table (stored_domain rule) rule.version endpoint ≡ none
  unfolding store_route
  store_route-guard rule table endpoint r h v2 = ground arith

  add_endpoint-kept :
      (rule : Rule) (table : Table) (endpoint : Str) {t : Table} (v e : Str) {r : Option Route}
      → is_v2_version v ≡ true
      → table_get table (str "*") v e ≡ some r
      → add_endpoint url_parse rule table endpoint ≡ ok t
      → table_get t (str "*") v e ≡ some r
  unfolding add_endpoint
  add_endpoint-kept rule table endpoint {t} v e {r} v2 found h =
      let (r', built, stored) =
        >>=-eq-ok (build_route url_parse rule endpoint) (store_route url_parse rule table endpoint)
          h in
      ground (
        arith,
        store_route-eq-ok url_parse rule table endpoint r' stored,
        store_route-guard rule table endpoint r' stored,
        table_get-put (stored_domain rule) rule.version endpoint r' table (str "*") v e,
        str_eq_iff endpoint e,
        str_eq_iff rule.version v,
        str_eq_iff (stored_domain rule) (str "*"),
      )

  add_endpoints-kept :
      (rule : Rule) (table : Table) (endpoints : List Str) {t : Table} (v e : Str)
      {r : Option Route}
      → is_v2_version v ≡ true
      → table_get table (str "*") v e ≡ some r
      → add_endpoints url_parse rule table endpoints ≡ ok t
      → table_get t (str "*") v e ≡ some r
  unfolding add_endpoints
  add_endpoints-kept rule table [] {t} v e v2 found h = let p : table ≡ t = cc in rw (← p) found
  add_endpoints-kept rule table (endpoint ∷ endpoints) v e v2 found h =
      let (table', added, rest) =
        >>=-eq-ok (add_endpoint url_parse rule table endpoint)
          (λ t'. add_endpoints url_parse rule t' endpoints) h in
      add_endpoints-kept rule table' endpoints v e v2
        (add_endpoint-kept rule table endpoint v e v2 found added) rest

  -- An endpoint of a v2 version keeps its route whatever rules follow: a second rule for it stops
  -- the loading.
  pub add_rules-kept :
      (table : Table) (rules : List Rule) {t : Table} (v e : Str) {r : Option Route}
      → is_v2_version v ≡ true
      → table_get table (str "*") v e ≡ some r
      → add_rules url_parse table rules ≡ ok t
      → table_get t (str "*") v e ≡ some r
  unfolding add_rules
  add_rules-kept table [] {t} v e v2 found h = let p : table ≡ t = cc in rw (← p) found
  add_rules-kept table (rule ∷ rules) v e v2 found h =
      let start = ensure (stored_domain rule) rule.version table in
      let (table', added, rest) =
        >>=-eq-ok (add_endpoints url_parse rule start rule.endpoints)
          (λ t'. add_rules url_parse t' rules) h in
      add_rules-kept table' rules v e v2
        (add_endpoints-kept rule start rule.endpoints v e v2
          (table_get-ensure (stored_domain rule) rule.version table (str "*") v e ∙ found) added)
        rest
