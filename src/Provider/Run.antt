-- ===== src/Provider/Run.antt =====
-- Run and routeElsewhere of serve.go: whether a request is this step's to answer or another
-- network's.
use network_adapter.Prelude.{
  Bool, not, ◌&&◌, Option, none, some, List, [], ◌∷◌, ◌++◌, if◌then◌else◌, is_empty, is_some, map,
  leb, ◌+◌, Str, str_eq, lookup,
}
use network_adapter.Text.{str, trim_space}
use network_adapter.Errors.{GoErr, plain, wrapped, new_bad_req_err, new_not_found_err}
use network_adapter.Result.{Res, ok, err, map_err, ◌>>=◌}
use network_adapter.Json.{Json, as_string}
use network_adapter.Model.{Url, StepContext}
use network_adapter.Ports.{Step}
use network_adapter.Router.Join.{path_join}
use network_adapter.Provider.Paths.{Paths}
use network_adapter.Provider.Binding.{Found, bound, no_binding, refused, key, serves, binding_for}
use network_adapter.Provider.Serve.{
  Provider, Lookup, found, not_published, unavailable, serve, unless,
}

-- model.AdmittedNetwork, as far as this step reads it.
pub record AdmittedNetwork : Type 0 where
  pub id : Str
  pub is_source : Bool
  pub is_requester : Bool

-- The Step of common.go; networks is none where the registry cannot list them.
pub record ProviderStep : Type 0 where
  pub provider : Provider
  pub binding_keys : List Str
  pub paths : List Paths
  pub networks : Option (Res (List AdmittedNetwork))
  pub beckn_context : Str → Res (List (Str × Json))
  pub url_parse : Str → Res Url
  pub has_host : Url → Bool

abbrev to_lower : Str → Str
to_lower s = map (λ c. if leb b'A' c && leb c b'Z' then c + 32 else c) s

-- strings.EqualFold, over ASCII.
unfoldable pub equal_fold : Str → Str → Bool
equal_fold a b = str_eq (to_lower a) (to_lower b)

abbrev trimmed_at : Option Json → Str
trimmed_at none = []
trimmed_at (some j) = elim (as_string j) [ some s ↦ trim_space s | none ↦ [] ]

-- contextValue
unfoldable pub context_value : List (Str × Json) → List Str → Str
context_value c [] = []
context_value c (k ∷ ks) =
    if is_empty (trimmed_at (lookup k c)) then context_value c ks else trimmed_at (lookup k c)

abbrev pub receiver_of : List (Str × Json) → Str
receiver_of c = context_value c (str "bpp_id" ∷ str "bppId" ∷ str "receiverId" ∷ [])

-- Directions, printed by %v, of a network that is no source.
abbrev directions : AdmittedNetwork → Str
directions n = if n.is_requester then str "[requester]" else str "[]"

abbrev bad_request : Str → Str → GoErr
bad_request code t = new_bad_req_err code (plain t)

-- The loop of agreedToReadFrom; none where the receiver is a source.
unfoldable pub admitted_source : List AdmittedNetwork → Str → Option GoErr
admitted_source [] receiver = some (
    new_not_found_err []
      (plain (receiver ++ str " is not a network we admitted, so this is not ours to send on")))
admitted_source (n ∷ ns) receiver =
    if not (equal_fold n.id receiver)
    then admitted_source ns receiver
    else if n.is_source
    then none
    else some (
        bad_request [] (
          str "we agreed "
          ++ (directions n
              ++ (str " with " ++ (receiver ++ str ", which does not include reading from them")))))

module _ (s : ProviderStep) where
  abbrev pub agreed_with : Option (Res (List AdmittedNetwork)) → Str → Option GoErr
  agreed_with none receiver = some (
      plain (
        str "the request is for "
        ++ (receiver ++ str ", but this registry cannot list the networks we admitted")))
  agreed_with (some (err e)) receiver = some (
      wrapped (str "could not check whether " ++ (receiver ++ str " is a network we admitted: ")) e)
  agreed_with (some (ok ns)) receiver = admitted_source ns receiver

  -- agreedToReadFrom
  unfoldable pub agreed_to_read_from : Str → Option GoErr
  agreed_to_read_from receiver = agreed_with s.networks receiver

  abbrev not_a_url : Str → GoErr
  not_a_url raw =
      bad_request (str "SCH_INVALID_FORMAT")
        (str "context.bppUri \"" ++ (raw ++ str "\" is not a URL this request can be sent to"))

  abbrev names_no : Str → Str → Str → Str → GoErr
  names_no receiver us field rest = bad_request [] (
      str "the request is for "
      ++ (receiver ++ (str " rather than " ++ (us ++ (str ", but names no " ++ (field ++ rest))))))

  abbrev pub with_action : Str → Str → Str → Url → Res Url
  with_action receiver us action u =
      if is_empty action
      then err (
          names_no receiver us (str "context.action")
            (str ", so there is no endpoint to send it to"))
      else ok (record u { path = path_join (if is_empty u.path then str "/" else u.path) action })

  abbrev pub hosted : Str → Str → Str → Str → Res Url → Res Url
  hosted receiver us raw action (err e) = err (not_a_url raw)
  hosted receiver us raw action (ok u) =
      if s.has_host u then with_action receiver us action u else err (not_a_url raw)

  -- destinationOf; %q of a text is the text in quotes.
  unfoldable pub destination_of : List (Str × Json) → Str → Str → Res Url
  destination_of c receiver us =
      let raw = context_value c (str "bpp_uri" ∷ str "bppUri" ∷ str "receiverUri" ∷ []) in
      if is_empty raw
      then err (
          names_no receiver us (str "context.bppUri")
            (str ", so there is no address to send it to"))
      else hosted receiver us raw (context_value c (str "action" ∷ []))
          (s.url_parse (trim_space raw))

  abbrev pub some_url : Res Url → Res (Option Url)
  some_url r = r >>= λ u. ok (some u)

  -- routeElsewhere over the context: the URL of another network, or none for a request of ours.
  unfoldable pub routed : Str → List (Str × Json) → Res (Option Url)
  routed own c =
      let receiver = receiver_of c in
      if is_empty receiver
      then err (
          bad_request [] (
            str "the request names no receiver, so there is nothing to decide by: "
            ++ str "set context.receiverId to the participant that should answer"))
      else if is_empty own
      then err (
          plain (
            str "the request is addressed to "
            ++ (receiver ++ str ", but this module has no subscriberId to compare it against")))
      else if equal_fold receiver own
      then ok none
      else unless (agreed_to_read_from receiver) (some_url (destination_of c receiver own))

  abbrev unreadable : GoErr → GoErr
  unreadable e =
      new_bad_req_err (str "SCH_INVALID_FORMAT") (wrapped (str "payload could not be read: ") e)

  -- routeElsewhere
  unfoldable pub route_elsewhere : StepContext → Res (Option Url)
  route_elsewhere ctx =
      map_err unreadable (s.beckn_context ctx.body) >>= λ c. routed ctx.own_subscriber_id c

  abbrev pub answered : StepContext → Res Str → StepContext × Option GoErr
  answered ctx (err e) = (ctx, some e)
  answered ctx (ok body) = (record ctx { response_body = body }, none)

  abbrev pub with_record : StepContext → Str → Lookup → StepContext × Option GoErr
  with_record ctx k (not_published e) = (
    ctx,
    some (
        new_not_found_err []
          (wrapped (str "the registry publishes no active binding for " ++ (k ++ str ": ")) e)),
  )
  with_record ctx k (unavailable e) =
      (ctx, some (wrapped (str "no call plan for " ++ (k ++ str ": ")) e))
  with_record ctx k (found plan) = answered ctx (serve s.provider plan ctx.body)

  abbrev pub with_binding : StepContext → Found → StepContext × Option GoErr
  with_binding ctx no_binding = (ctx, none)
  with_binding ctx (refused e) = (ctx, some (new_bad_req_err [] e))
  with_binding ctx (bound b) =
      if serves s.binding_keys (key b)
      then with_record ctx (key b) (s.provider.provider_record (key b))
      else (ctx, none)

  abbrev pub with_payload : StepContext → Res Json → StepContext × Option GoErr
  with_payload ctx (err e) =
      (ctx, some (new_bad_req_err [] (wrapped (str "payload could not be read: ") e)))
  with_payload ctx (ok payload) = with_binding ctx (binding_for s.binding_keys s.paths payload)

  abbrev pub after_routing : StepContext → Res (Option Url) → StepContext × Option GoErr
  after_routing ctx (err e) = (ctx, some e)
  after_routing ctx (ok none) = with_payload ctx (s.provider.decode ctx.body)
  after_routing ctx (ok (some u)) = (
    record ctx {
      sub_id = ctx.own_subscriber_id;
      route = some (record { target_type = str "url"; publisher_id = []; url = some u });
    },
    none,
  )

  -- Run
  unfoldable pub run : Step
  run ctx = if is_some ctx.route then (ctx, none) else after_routing ctx (route_elsewhere ctx)
