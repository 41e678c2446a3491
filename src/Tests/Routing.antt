-- ===== src/Tests/Routing.antt =====
-- The router at concrete inputs.
use network_adapter.Prelude.{
  ◌≡◌, refl, true, Option, none, some, List, [], ◌∷◌, Str, lookup, insert, str_eq, get_or,
}
use network_adapter.Text.{str}
use network_adapter.Errors.{plain}
use network_adapter.Result.{Res, ok, err}
use network_adapter.Version.{is_v2_version}
use network_adapter.Json.{Json, string, object, member, no_more}
use network_adapter.Model.{Url, Route}
use network_adapter.Router.Load.{
  Rule, Table, new, load_rules, validate_rules, validate_rule, add_rules, add_endpoints,
  add_endpoint, build_route, store_route, stored_domain, ensure, put, is_participant_type,
  is_receiver_type, is_sender_type,
}
use network_adapter.Router.Table.{AllRoutes, table_get}
use network_adapter.Router.Invariant.{IsRoutable}
use network_adapter.Router.Loaded.{
  new-IsRoutable, add_rules-last_covering, last_covering, add_rules-kept,
}
use network_adapter.Router.Choose
use network_adapter.Router.Chosen.{route-reaches, reaches_safely}
use network_adapter.Handler.Outcome.{Answers}
use network_adapter.Tests.Plugins.{some_url}

abbrev url_parse : Str → Res Url
url_parse s = ok (record { origin = s; path = []; raw_query = [] })

abbrev rule : Rule
rule = record {
  domain = [];
  version = str "2.0.0";
  target_type = str "url";
  url = str "https://up.example";
  publisher_id = [];
  exclude_action = true;
  endpoints = str "search" ∷ [];
}

abbrev up : Url
up = record { origin = str "https://up.example"; path = []; raw_query = [] }

abbrev up_route : Route
up_route = record { target_type = str "url"; publisher_id = []; url = some up }

abbrev table : Table
table = (str "*", (str "2.0.0", (str "search", some up_route) ∷ []) ∷ []) ∷ []

abbrev file : Str → Res Str
file path = ok (str "rules")

abbrev unmarshal : Str → Res (List Rule)
unmarshal text = ok (rule ∷ [])

new-IsRoutable_example : AllRoutes IsRoutable table
unfolding new load_rules validate_rules validate_rule add_rules add_endpoints add_endpoint
    build_route store_route stored_domain ensure put is_v2_version lookup insert str_eq
    is_participant_type is_receiver_type is_sender_type
new-IsRoutable_example = new-IsRoutable url_parse file unmarshal (some (str "routing.yaml")) refl

loaded : add_rules url_parse [] (rule ∷ []) ≡ ok table
unfolding add_rules add_endpoints add_endpoint build_route store_route stored_domain ensure put
    is_v2_version lookup insert str_eq is_participant_type is_receiver_type is_sender_type
loaded = refl

add_rules-last_covering_example :
    table_get table (str "*") (str "2.0.0") (str "search")
    ≡ last_covering url_parse none (rule ∷ []) (str "*") (str "2.0.0") (str "search")
add_rules-last_covering_example =
    add_rules-last_covering url_parse (rule ∷ []) (str "*") (str "2.0.0") (str "search") loaded

abbrev other_rule : Rule
other_rule = record rule { url = str "https://other.example"; endpoints = str "select" ∷ [] }

abbrev other_route : Route
other_route = record up_route { url = some (record up { origin = str "https://other.example" }) }

abbrev both : Table
both =
    (
      str "*",
      (str "2.0.0", (str "search", some up_route) ∷ (str "select", some other_route) ∷ []) ∷ [],
    )
    ∷ []

add_rules-kept_example :
    table_get both (str "*") (str "2.0.0") (str "search") ≡ some (some up_route)
unfolding add_rules add_endpoints add_endpoint build_route store_route stored_domain ensure put
    is_v2_version lookup insert str_eq is_participant_type is_receiver_type is_sender_type
add_rules-kept_example =
    add_rules-kept url_parse table (other_rule ∷ []) (str "2.0.0") (str "search") refl refl refl

abbrev decode : Str → Res (List (Str × Json))
decode body =
    ok ((str "context", object (member (str "version") (string (str "2.0.0")) no_more)) ∷ [])

abbrev search_url : Url
search_url = record some_url { path = str "search" }

route-reaches_example :
    reaches_safely (str "x=1") (Choose.route url_parse decode table (some search_url) (str "{}"))
    ≡ true
route-reaches_example =
    route-reaches url_parse decode table search_url (str "{}") new-IsRoutable_example

abbrev router : Url → Str → Res Route
router u body =
    get_or (Choose.route url_parse decode table (some u) body) (err (plain (str "nil dereference")))

reached :
    (q : Str) (d : Res Route) (o : Option (Res Route))
    → reaches_safely q o ≡ true
    → o ≡ some (get_or o d)
reached q d none h = cc
reached q d (some m) h = refl

answers : Answers url_parse decode table router
answers u body =
    reached u.raw_query _ (Choose.route url_parse decode table (some u) body)
      (route-reaches url_parse decode table u body new-IsRoutable_example)
