-- ===== src/Provider/Serve.antt =====
-- serve.go and hosts.go: the exchange with a provider. The mapper, the registry, the credentials and
-- the envelope are parameters.
use network_adapter.Prelude.{
  ℕ, Bool, Option, none, some, List, [], ◌++◌, if◌then◌else◌, is_empty, get_or, Str, lookup, ◌==◌,
  ◌||◌, true, ◌∷◌, false, leb,
}
use network_adapter.Text.{str, contains, join}
use network_adapter.Errors.{
  GoErr, plain, wrapped, new_bad_req_err, new_coded_err, new_coded_error_with_cause, no_cause,
  schema_error, none_left, schema_validation,
}
use network_adapter.Result.{Res, ok, err, map_err, ◌>>=◌}
use network_adapter.Json.{Json}
use network_adapter.Provider.Binding.{provider_id_from}

-- model.ActionPlan
pub record ActionPlan : Type 0 where
  pub method : Str
  pub path : Str
  pub mappings : Str
  pub timeout_ms : ℕ
  pub retry_max : ℕ

-- model.ProviderRecord
pub record ProviderRecord : Type 0 where
  pub binding_key : Str
  pub base_url : Str
  pub actions : List (Str × ActionPlan)

-- `<=` on strings, by code points.
abbrev str_leb : Str → Str → Bool
str_leb [] t = true
str_leb (a ∷ s) [] = false
str_leb (a ∷ s) (b ∷ t) = let rest = str_leb s t in if a == b then rest else leb a b

abbrev insert_sorted : Str → List Str → List Str
insert_sorted s [] = s ∷ []
insert_sorted s (t ∷ ts) =
    let rest = insert_sorted s ts in if str_leb s t then s ∷ t ∷ ts else t ∷ rest

abbrev action_names : List (Str × ActionPlan) → List Str
action_names [] = []
action_names ((k, plan) ∷ m) = insert_sorted k (action_names m)

-- ServedActions
unfoldable pub served_actions : ProviderRecord → List Str
served_actions r = action_names r.actions

-- What ProviderRecord of the registry returns: a record, ErrProviderRecordNotFound in an error, or
-- another error.
pub data Lookup : Type 0 where
  found : ProviderRecord → Lookup
  not_published : GoErr → Lookup
  unavailable : GoErr → Lookup

-- What the `_error` member of a mapped document is, once the text holds `"_error"`: absent or null,
-- unreadable or without a message, or its status, code, message and path.
pub data ErrorMember : Type 0 where
  absent : ErrorMember
  unreadable : ErrorMember
  asked : ℕ → Str → Str → Str → ErrorMember

-- The seal of an envelope: the sealed request and the opener of the answer.
abbrev pub Sealed : Type 0
Sealed = Str × (Str → Res Str)

pub record Provider : Type 0 where
  pub decode : Str → Res Json
  pub action_of : Str → Str
  pub verify : Str → Json → Option GoErr
  pub transform_request : Str → Json → Json → Res Str
  pub transform_response : Str → Json → Json → Json → Res Str
  pub error_member : Str → ErrorMember
  pub prerequisites : List (Str × (Json → Res (Option Json)))
  pub no_local : Json
  pub has_auth : Str → Bool
  pub provider_record : Str → Lookup
  pub hosted_elsewhere : List (Str × List (Str × Str))
  pub envelopes : List (Str × (Str → Res Sealed))
  pub call : Str → Str → ActionPlan → Str → Res Str

unfoldable pub for_binding {ℓ} : {A : Type ℓ} → List (Str × A) → Str → Option A
for_binding m k = elim (lookup k m) [ some v ↦ some v | none ↦ lookup (provider_id_from k) m ]

-- refusalIn, without the cause that goes to the log.
abbrev refusal_of : ErrorMember → Option GoErr
refusal_of absent = none
refusal_of unreadable = some (
    plain (
      str
        "a mapping refused the call with an unreadable _error; it needs status, code and message"))
refusal_of (asked status code message path) =
    if status == 0 || status == 400
    then some (
        schema_validation
          (schema_error (new_coded_error_with_cause code message path no_cause) none_left))
    else some (new_coded_err status code (plain message))

unfoldable pub refusal_in : Provider → Str → Option GoErr
refusal_in p mapped =
    if contains (str "\"_error\"") mapped then refusal_of (p.error_member mapped) else none

-- `if err != nil { return err }`
abbrev pub unless {ℓ} : {A : Type ℓ} → Option GoErr → Res A → Res A
unless none r = r
unless (some e) r = err e

module _ (p : Provider) where
  abbrev pub local_of : Option Json → Json
  local_of o = get_or o p.no_local

  abbrev pub resolved : Str → Option (Json → Res (Option Json)) → Json → Res Json
  resolved k none beckn = ok p.no_local
  resolved k (some f) beckn = do
    local ←
        map_err (wrapped (k ++ str " could not resolve what it needs before the call: ")) (f beckn)
    ok (local_of local)

  -- resolve
  unfoldable pub resolve : Str → Json → Res Json
  resolve k beckn = resolved k (lookup k p.prerequisites) beckn

  -- buildRequest
  unfoldable pub build_request : ActionPlan → Json → Json → Res Str
  build_request plan beckn local = do
    mapped ← p.transform_request plan.mappings beckn local
    unless (refusal_in p mapped) (ok mapped)

  abbrev pub host_in : Str → Lookup → Res Str
  host_in k (not_published e) = err (
      new_coded_err 502 (str "NET_DOWNSTREAM_UNAVAILABLE")
        (wrapped (str "the registry publishes no active binding for " ++ (k ++ str ": ")) e))
  host_in k (unavailable e) = err (wrapped (str "no host for " ++ (k ++ str ": ")) e)
  host_in k (found r) =
      if is_empty r.base_url
      then err (
          new_coded_err 502 (str "NET_DOWNSTREAM_UNAVAILABLE")
            (plain (str "the registry has no base URL for " ++ k)))
      else ok r.base_url

  -- HostOf
  unfoldable pub host_of : Str → Res Str
  host_of k = host_in k (p.provider_record k)

  abbrev pub elsewhere : Option (List (Str × Str)) → Str → Str
  elsewhere none action = []
  elsewhere (some hosts) action = get_or (lookup action hosts) []

  -- The base URL of the exchange.
  unfoldable pub base_of : ProviderRecord → Str → Res Str
  base_of plan action =
      let k = elsewhere (for_binding p.hosted_elsewhere plan.binding_key) action in
      if is_empty k then ok plan.base_url else host_of k

  abbrev pub sealed_with : Option (Str → Res Sealed) → Str → Res Sealed
  sealed_with none request = ok (request, λ answer. ok answer)
  sealed_with (some seal) request = seal request

  -- The call between Seal and its opener.
  abbrev pub opened : Str → ProviderRecord → ActionPlan → Sealed → Res Str
  opened base plan action_plan (request, unseal) =
      p.call (provider_id_from plan.binding_key) base action_plan request >>= unseal

  abbrev pub checked_reply : ProviderRecord → ActionPlan → Str → Res Str
  checked_reply plan action_plan reply = unless (refusal_in p reply) (
      if is_empty reply
      then err (
          plain (
            str "the response half of "
            ++ (action_plan.mappings
                ++ (str " produced nothing, so "
                    ++ (plan.binding_key ++ str " cannot be answered")))))
      else ok reply)

  -- The exchange, once the action is known to be served.
  unfoldable pub exchange : ProviderRecord → Str → ActionPlan → Str → Res Str
  exchange plan action action_plan body = do
    beckn ← map_err (wrapped (str "could not read JSON: ")) (p.decode body)
    local ← unless (p.verify action_plan.mappings beckn) (resolve plan.binding_key beckn)
    request ← build_request action_plan beckn local
    base ←
        if p.has_auth (provider_id_from plan.binding_key)
        then base_of plan action
        else err (plain (str "no credential is configured for " ++ plan.binding_key))
    sealed ← sealed_with (for_binding p.envelopes plan.binding_key) request
    response ← opened base plan action_plan sealed
    answer ←
        map_err
          (λ e.
            wrapped (str "provider answered with something that is not JSON: ")
              (wrapped (str "could not read JSON: ") e))
          (p.decode response)
    reply ← p.transform_response action_plan.mappings beckn local answer
    checked_reply plan action_plan reply

  abbrev pub serve_action : ProviderRecord → Str → Str → Option ActionPlan → Res Str
  serve_action plan action body none = err (
      new_bad_req_err [] (
        plain (
          plan.binding_key
          ++ (str " does not serve action \""
              ++ (action ++ (str "\"; it serves " ++ join (str ", ") (served_actions plan)))))))
  serve_action plan action body (some action_plan) = exchange plan action action_plan body

  -- serve, over the body of the request: the response body, or the error.
  unfoldable pub serve : ProviderRecord → Str → Res Str
  serve plan body =
      serve_action plan (p.action_of body) body (lookup (p.action_of body) plan.actions)
