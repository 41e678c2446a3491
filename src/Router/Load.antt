-- ===== src/Router/Load.antt =====
-- New, loadRules and validateRules of router.go.
use mathlib.Core.Option
use network_adapter.Prelude.{
  Bool, ◌&&◌, ◌||◌, not, Option, none, some, List, [], ◌∷◌, ◌++◌, if◌then◌else◌, is_empty, is_some,
  get_or, Str, str_eq, lookup, insert,
}
use network_adapter.Text.{str}
use network_adapter.Errors.{GoErr, plain, wrapped}
use network_adapter.Result.{Res, ok, err, map_err, ◌>>=◌}
use network_adapter.Version.{is_v2_version}
use network_adapter.Model.{Url, Route}
use network_adapter.Router.Join.{join_path}

-- routingRule, with its target.
pub record Rule : Type 0 where
  pub domain : Str
  pub version : Str
  pub target_type : Str
  pub url : Str
  pub publisher_id : Str
  pub exclude_action : Bool
  pub endpoints : List Str

abbrev pub target_url : Str
target_url = str "url"

abbrev pub target_publisher : Str
target_publisher = str "publisher"

abbrev pub target_bpp : Str
target_bpp = str "bpp"

abbrev pub target_bap : Str
target_bap = str "bap"

abbrev pub target_receiver : Str
target_receiver = str "receiver"

abbrev pub target_sender : Str
target_sender = str "sender"

-- `case targetTypeBPP, targetTypeReceiver`
unfoldable pub is_receiver_type : Str → Bool
is_receiver_type t = str_eq t target_bpp || str_eq t target_receiver

-- `case targetTypeBAP, targetTypeSender`
unfoldable pub is_sender_type : Str → Bool
is_sender_type t = str_eq t target_bap || str_eq t target_sender

unfoldable pub is_participant_type : Str → Bool
unfolding is_receiver_type is_sender_type
is_participant_type t = is_receiver_type t || is_sender_type t

-- domain -> version -> endpoint -> route; a stored route may be a nil pointer.
abbrev pub Endpoints : Type 0
Endpoints = List (Str × Option Route)

abbrev pub Versions : Type 0
Versions = List (Str × Endpoints)

abbrev pub Table : Type 0
Table = List (Str × Versions)

abbrev pub versions_of : Str → Table → Versions
versions_of domain table = get_or (lookup domain table) []

abbrev pub endpoints_of : Str → Str → Table → Endpoints
endpoints_of domain version table = get_or (lookup version (versions_of domain table)) []

-- The domain under which a rule is stored.
unfoldable pub stored_domain : Rule → Str
stored_domain rule = if is_v2_version rule.version then str "*" else rule.domain

-- Both maps exist before the endpoints of the rule are added.
unfoldable pub ensure : Str → Str → Table → Table
ensure domain version table =
    insert domain (insert version (endpoints_of domain version table) (versions_of domain table))
      table

-- `r.rules[domain][version][endpoint] = route`
unfoldable pub put : Str → Str → Str → Option Route → Table → Table
put domain version endpoint route table =
    insert domain
      (insert version (insert endpoint route (endpoints_of domain version table))
        (versions_of domain table))
      table

abbrev url_route : Str → Option Url → Route
url_route t u = record { target_type = t; publisher_id = []; url = u }

abbrev with_path : Str → Url → Url
with_path endpoint u = record u { path = join_path u endpoint }

abbrev failed_with : Str → Option GoErr
failed_with t = some (plain t)

-- The error of a result, where there is one.
abbrev error_of {ℓ} : {A : Type ℓ} → Res A → Option GoErr
error_of (ok a) = none
error_of (err e) = some e

-- net/url's Parse is a parameter.
module _ (url_parse : Str → Res Url) where
  abbrev parsed_or : (GoErr → GoErr) → Str → Option GoErr
  parsed_or wrap u = Option.map wrap (error_of (url_parse u))

  -- The check of one rule in validateRules, none where it passes.
  unfoldable pub validate_rule : Rule → Option GoErr
  unfolding is_participant_type
  validate_rule rule =
      if is_empty rule.version || is_empty rule.target_type
      then failed_with (str "invalid rule: version and targetType are required")
      else if not (is_v2_version rule.version) && is_empty rule.domain
      then failed_with (str "invalid rule: domain is required for version " ++ rule.version)
      else if str_eq rule.target_type target_url
      then (if is_empty rule.url
          then failed_with (str "invalid rule: url is required for targetType 'url'")
          else parsed_or (wrapped (str "invalid URL - " ++ (rule.url ++ str ": "))) rule.url)
      else if str_eq rule.target_type target_publisher
      then (if is_empty rule.publisher_id
          then failed_with (str "invalid rule: publisherID is required for targetType 'publisher'")
          else none)
      else if is_participant_type rule.target_type
      then (if is_empty rule.url
          then none
          else parsed_or
              (wrapped (
                str "invalid URL - "
                ++ (rule.url
                    ++ (str " defined in routing config for target type "
                        ++ (rule.target_type ++ str ": ")))))
              rule.url)
      else failed_with (str "invalid rule: unknown targetType '" ++ (rule.target_type ++ str "'"))

  -- validateRules
  unfoldable pub validate_rules : List Rule → Option GoErr
  validate_rules [] = none
  validate_rules (rule ∷ rules) = elim (validate_rule rule) [
    | some e ↦ some e
    | none ↦ validate_rules rules
  ]

  abbrev parse_target : Str → Res Url
  parse_target u = map_err (wrapped (str "invalid URL in rule: ")) (url_parse u)

  -- The route of one endpoint of a rule; it stays nil for an unknown target type.
  unfoldable pub build_route : Rule → Str → Res (Option Route)
  unfolding is_participant_type join_path
  build_route rule endpoint =
      if str_eq rule.target_type target_publisher
      then ok (
          some (record {
            target_type = rule.target_type;
            publisher_id = rule.publisher_id;
            url = none;
          }))
      else if str_eq rule.target_type target_url
      then (do
        u ← parse_target rule.url
        ok (
            some (
              url_route rule.target_type
                (some (if rule.exclude_action then u else with_path endpoint u)))))
      else if is_participant_type rule.target_type
      then (if is_empty rule.url then ok (some (url_route rule.target_type none)) else (do
        u ← parse_target rule.url
        ok (some (url_route rule.target_type (some (with_path endpoint u))))))
      else ok none

  -- The duplicate check and the write.
  unfoldable pub store_route : Rule → Table → Str → Option Route → Res Table
  store_route rule table endpoint route =
      if is_v2_version rule.version
        && is_some (lookup endpoint (endpoints_of (stored_domain rule) rule.version table))
      then err (
          plain (
            str "duplicate endpoint '"
            ++ (endpoint
                ++ (str "' found for version "
                    ++ (rule.version
                        ++ (str
                              ". For v2.x.x, domain is ignored, so you can only define each endpoint once "
                            ++ str "per version. Please remove the duplicate rule"))))))
      else ok (put (stored_domain rule) rule.version endpoint route table)

  -- One round of the inner loop of loadRules.
  unfoldable pub add_endpoint : Rule → Table → Str → Res Table
  add_endpoint rule table endpoint = build_route rule endpoint >>= store_route rule table endpoint

  unfoldable pub add_endpoints : Rule → Table → List Str → Res Table
  add_endpoints rule table [] = ok table
  add_endpoints rule table (endpoint ∷ endpoints) = do
    table' ← add_endpoint rule table endpoint
    add_endpoints rule table' endpoints

  -- The outer loop of loadRules.
  unfoldable pub add_rules : Table → List Rule → Res Table
  add_rules table [] = ok table
  add_rules table (rule ∷ rules) = do
    table' ← add_endpoints rule (ensure (stored_domain rule) rule.version table) rule.endpoints
    add_rules table' rules

  abbrev pub checked : List Rule → Res Table
  checked rules = elim (validate_rules rules) [
    | some e ↦ err (wrapped (str "invalid routing rules: ") e)
    | none ↦ add_rules [] rules
  ]

  abbrev pub yaml_failed : GoErr → GoErr
  yaml_failed e = wrapped (str "error parsing YAML: ") e

  abbrev pub load_text : (Str → Res (List Rule)) → Str → Res Table
  load_text unmarshal text = map_err yaml_failed (unmarshal text) >>= checked

  abbrev pub read_failed : Str → GoErr → GoErr
  read_failed path e = wrapped (str "error reading config file at " ++ (path ++ str ": ")) e

  -- loadRules: `file` reads the configuration and `unmarshal` is the YAML decoder.
  unfoldable pub load_rules : (Str → Res Str) → (Str → Res (List Rule)) → Str → Res Table
  load_rules file unmarshal path =
      if is_empty path
      then err (plain (str "routingConfig path is empty"))
      else map_err (read_failed path) (file path) >>= load_text unmarshal

  -- New
  unfoldable pub new : (Str → Res Str) → (Str → Res (List Rule)) → Option Str → Res Table
  new file unmarshal none = err (plain (str "config cannot be nil"))
  new file unmarshal (some path) =
      map_err (wrapped (str "failed to load routing rules: ")) (load_rules file unmarshal path)
