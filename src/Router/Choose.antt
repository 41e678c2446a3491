-- ===== src/Router/Choose.antt =====
-- Route, routeBodyless and handleProtocolMapping of router.go.
use network_adapter.Prelude.{
  ◌&&◌, Option, none, some, List, [], ◌∷◌, ◌++◌, map, if◌then◌else◌, is_empty, Str, str_eq, lookup,
  leb, ◌-◌,
}
use network_adapter.Text.{str, trim_space}
use network_adapter.Errors.{GoErr, plain, wrapped, new_bad_req_err}
use network_adapter.Result.{Res, ok, err, map_err, ◌>>=◌}
use network_adapter.Version.{is_v2_version}
use network_adapter.Json.{Json}
use network_adapter.Model.{
  Url, Route, extract_context, wrap_extract_context_err, first_context_string,
}
use network_adapter.Router.Join.{join_path}
use network_adapter.Router.Load.{
  Table, Versions, target_url, is_receiver_type, is_sender_type, is_participant_type,
}

abbrev pub to_url : Url → Route
to_url u = record { target_type = target_url; publisher_id = []; url = some u }

-- strings.ToUpper, over ASCII.
abbrev to_upper : Str → Str
to_upper s = map (λ c. if leb b'a' c && leb c b'z' then c - 32 else c) s

-- canonicalRoleName
unfoldable pub canonical_role_name : Str → Str
unfolding is_receiver_type is_sender_type
canonical_role_name t =
    if is_receiver_type t then str "BPP" else if is_sender_type t then str "BAP" else to_upper t

-- `*route` of a route that may be nil, none for the panic.
abbrev pub deref : Option Route → (Route → Option (Res Route)) → Option (Res Route)
deref none k = none
deref (some r) k = k r

-- The query of the request on a copy of the URL.
unfoldable pub with_query : Str → Url → Url
with_query raw_query u = if is_empty raw_query then u else record u { raw_query = raw_query }

abbrev pub default_destination : Str → Str → Str → Option Url → Res Route
default_destination role endpoint raw_query none = err (
    plain (
      str "could not determine destination for endpoint '"
      ++ (endpoint
          ++ (str "': neither request contained a "
              ++ (role ++ str " URI nor was a default URL configured in routing rules")))))
default_destination role endpoint raw_query (some u) = ok (to_url (with_query raw_query u))

abbrev pub url_with_query : Str → Route → Option Url → Route
url_with_query raw_query r none = r
url_with_query raw_query r (some u) =
    if is_empty raw_query then r else to_url (with_query raw_query u)

module _ (url_parse : Str → Res Url) where
  -- handleProtocolMapping
  unfoldable pub handle_protocol_mapping : Route → Str → Str → Str → Res Route
  handle_protocol_mapping route np_uri endpoint raw_query =
      let target = trim_space np_uri in
      let role = canonical_role_name route.target_type in
      if is_empty target then default_destination role endpoint raw_query route.url else (do
        u ←
            map_err
              (λ e. new_bad_req_err (str "SCH_INVALID_FORMAT") (
                wrapped
                  (str "invalid "
                    ++ (role
                        ++ (str " URI - "
                            ++ (target
                                ++ (str " in request body for " ++ (endpoint ++ str ": "))))))
                  e))
              (url_parse target)
        ok (to_url (with_query raw_query (record u { path = join_path u endpoint }))))

  -- The end of Route, once the route of the endpoint is found.
  unfoldable pub resolve : Str → Str → Str → Str → Route → Res Route
  resolve bpp_uri bap_uri endpoint raw_query r =
      if is_receiver_type r.target_type
      then handle_protocol_mapping r bpp_uri endpoint raw_query
      else if is_sender_type r.target_type
      then handle_protocol_mapping r bap_uri endpoint raw_query
      else if str_eq r.target_type target_url
      then ok (url_with_query raw_query r r.url)
      else ok r

abbrev no_version : Str → Str → GoErr
no_version domain version = plain (
    if str_eq domain (str "*")
    then str "no routing rules found for version " ++ version
    else str "no routing rules found for domain " ++ (domain ++ (str " version " ++ version)))

abbrev no_domain : Str → Str → GoErr
no_domain domain version = plain (
    if str_eq domain (str "*")
    then str "no routing rules found for version " ++ version
    else str "no routing rules found for domain " ++ domain)

abbrev no_endpoint : Str → Str → Str → GoErr
no_endpoint domain version endpoint = plain (
    if str_eq domain (str "*")
    then str "endpoint '"
      ++ (endpoint
          ++ (str "' is not supported for version " ++ (version ++ str " in routing config")))
    else str "endpoint '"
      ++ (endpoint
          ++ (str "' is not supported for domain "
              ++ (domain ++ (str " and version " ++ (version ++ str " in routing config"))))))

-- The lookups of Route.
unfoldable pub find : Table → Str → Str → Str → Res (Option Route)
find table domain version endpoint = elim (lookup domain table) [
  | none ↦ err (no_domain domain version)
  | some versions ↦ elim (lookup version versions) [
    | none ↦ err (no_version domain version)
    | some endpoints ↦ elim (lookup endpoint endpoints) [
      | none ↦ err (no_endpoint domain version endpoint)
      | some r ↦ ok r
    ]
  ]
]

abbrev pub bodyless_route : Str → Str → Str → Route → Res Route
bodyless_route endpoint version raw_query r =
    if is_participant_type r.target_type
    then err (
        plain (
          str "bodyless endpoint '"
          ++ (endpoint
              ++ (str "' (version "
                  ++ (version
                      ++ (str ") is configured with target type '"
                          ++ (r.target_type
                              ++ str
                                  "': dynamic BAP/BPP URI routing is not supported for bodyless requests")))))))
    else if str_eq r.target_type target_url
    then ok (url_with_query raw_query r r.url)
    else ok r

-- The loop of routeBodyless, over the versions in the order in which `range` yields them.
unfoldable pub bodyless_loop : Str → Str → Versions → Option (Res Route)
bodyless_loop endpoint raw_query [] =
    some (
      err (plain (str "endpoint '" ++ (endpoint ++ str "' is not supported in v2 routing config"))))
bodyless_loop endpoint raw_query ((version, endpoints) ∷ versions) =
    elim (lookup endpoint endpoints) [
      | none ↦ bodyless_loop endpoint raw_query versions
      | some r ↦ deref r (λ route. some (bodyless_route endpoint version raw_query route))
    ]

-- routeBodyless
unfoldable pub route_bodyless : Table → Str → Str → Option (Res Route)
route_bodyless table endpoint raw_query = elim (lookup (str "*") table) [
  | none ↦
      some (err (plain (str "no v2 routing rules found; bodyless requests require a v2 config")))
  | some versions ↦ bodyless_loop endpoint raw_query versions
]

abbrev pub effective_domain : List (Str × Json) → Str
effective_domain ctx =
    if is_v2_version (first_context_string ctx (str "version" ∷ []))
    then str "*"
    else first_context_string ctx (str "domain" ∷ [])

-- `deref` over a result.
abbrev pub deref_ok : Res (Option Route) → (Route → Res Route) → Option (Res Route)
deref_ok (err e) k = some (err e)
deref_ok (ok r) k = deref r (λ route. some (k route))

-- encoding/json's Unmarshal into a map is a parameter too.
module _ (url_parse : Str → Res Url) (decode : Str → Res (List (Str × Json))) where
  abbrev pub route_in_context : Table → Str → Str → Res (List (Str × Json)) → Option (Res Route)
  route_in_context table endpoint raw_query (err e) =
      some (err (wrap_extract_context_err (str "error parsing request body") e))
  route_in_context table endpoint raw_query (ok ctx) =
      deref_ok
        (find table (effective_domain ctx) (first_context_string ctx (str "version" ∷ [])) endpoint)
        (resolve url_parse
          (first_context_string ctx (str "bpp_uri" ∷ str "bppUri" ∷ str "receiverUri" ∷ []))
          (first_context_string ctx (str "bap_uri" ∷ str "bapUri" ∷ str "senderUri" ∷ [])) endpoint
          raw_query)

  -- Route; none is a nil dereference.
  unfoldable pub route : Table → Option Url → Str → Option (Res Route)
  route table none body = some (err (plain (str "reqURL must not be nil")))
  route table (some u) body =
      if is_empty body
      then route_bodyless table u.path u.raw_query
      else route_in_context table u.path u.raw_query (extract_context (decode body))
