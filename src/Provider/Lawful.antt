-- ===== src/Provider/Lawful.antt =====
-- What a run of the provider step may do to its context.
use network_adapter.Prelude.{
  ◌≡◌, refl, subst, ◌⊎◌, inl, inr, true, false, Option, none, some, List, [], ◌∷◌, Str, is_empty,
  is_some, arith, Bool-cases,
}
use network_adapter.Text.{str}
use network_adapter.Errors.{GoErr}
use network_adapter.Result.{Res, ok, err, map_err, >>=-eq-ok, map_err-eq-ok}
use network_adapter.Json.{Json}
use network_adapter.Model.{Url, StepContext}
use network_adapter.Crawl.Unique.{In}
use network_adapter.Provider.Binding.{
  Binding, Found, bound, no_binding, refused, key, serves, binding_for,
}
use network_adapter.Provider.Serve.{
  ProviderRecord, Lookup, found, not_published, unavailable, serve, unless,
}
use network_adapter.Provider.Run.{
  AdmittedNetwork, ProviderStep, equal_fold, receiver_of, admitted_source, agreed_with,
  agreed_to_read_from, destination_of, routed, some_url, route_elsewhere, answered, with_record,
  with_binding, with_payload, after_routing, run,
}

module _ (s : ProviderStep) (ctx : StepContext) where
  -- The request is addressed to the module itself.
  abbrev pub IsOurs : Type 0
  IsOurs =
      (c : List (Str × Json)) × ((s.beckn_context ctx.body ≡ ok c)
        × (equal_fold (receiver_of c) ctx.own_subscriber_id ≡ true))

  -- The step answered with what the registry's plan for a served binding gave.
  pub record IsAnswer (after : StepContext) : Type 0 where
    pub ours : IsOurs
    pub payload : Json
    pub decoded : s.provider.decode ctx.body ≡ ok payload
    pub binding : Binding
    pub named : binding_for s.binding_keys s.paths payload ≡ bound binding
    pub served : serves s.binding_keys (key binding) ≡ true
    pub plan : ProviderRecord
    pub published : s.provider.provider_record (key binding) ≡ found plan
    pub body : Str
    pub given : serve s.provider plan ctx.body ≡ ok body
    pub only : record ctx { response_body = body } ≡ after

  -- The step sends the request to another network, which was admitted as a source.
  pub record IsSent (after : StepContext) : Type 0 where
    pub context_read : List (Str × Json)
    pub readable : s.beckn_context ctx.body ≡ ok context_read
    pub not_ours : equal_fold (receiver_of context_read) ctx.own_subscriber_id ≡ false
    pub networks : List AdmittedNetwork
    pub listed : s.networks ≡ some (ok networks)
    pub network : AdmittedNetwork
    pub admitted : In network networks
    pub receiver : equal_fold network.id (receiver_of context_read) ≡ true
    pub source : network.is_source ≡ true
    pub target : Url
    pub addressed :
        destination_of s context_read (receiver_of context_read) ctx.own_subscriber_id ≡ ok target
    pub only :
        record ctx {
          sub_id = ctx.own_subscriber_id;
          route = some (record { target_type = str "url"; publisher_id = []; url = some target });
        }
        ≡ after

unless-ok :
    {A : Type 0} (o : Option GoErr) (r : Res A) (a : A)
    → unless o r ≡ ok a
    → (o ≡ none) × (r ≡ ok a)
unless-ok none r a h = (refl, h)
unless-ok (some e) r a h = cc

admitted_source-In :
    (ns : List AdmittedNetwork) (receiver : Str)
    → admitted_source ns receiver ≡ none
    → (n : AdmittedNetwork) × (In n ns × ((equal_fold n.id receiver ≡ true) × (n.is_source ≡ true)))
unfolding admitted_source In
admitted_source-In [] receiver h = absurd cc
admitted_source-In (n ∷ ns) receiver h = elim (Bool-cases (equal_fold n.id receiver)) [
  | inl e ↦ elim (Bool-cases n.is_source) [
    | inl f ↦ (n, (inl refl, (e, f)))
    | inr f ↦ absurd (ground arith)
  ]
  | inr e ↦ let (m, (i, rest)) = admitted_source-In ns receiver (rw e at h) in (m, (inr i, rest))
]

module _ (s : ProviderStep) where
  agreed_with-listed :
      (o : Option (Res (List AdmittedNetwork))) (receiver : Str)
      → agreed_with s o receiver ≡ none
      → (ns : List AdmittedNetwork) × ((o ≡ some (ok ns)) × (admitted_source ns receiver ≡ none))
  agreed_with-listed none receiver h = absurd cc
  agreed_with-listed (some (err e)) receiver h = absurd cc
  agreed_with-listed (some (ok ns)) receiver h = (ns, (refl, h))

  -- What routeElsewhere decided, for each answer.
  abbrev Decided : Str → List (Str × Json) → Option Url → Type 0
  Decided own c none = equal_fold (receiver_of c) own ≡ true
  Decided own c (some u) =
      (equal_fold (receiver_of c) own ≡ false)
      × ((agreed_to_read_from s (receiver_of c) ≡ none)
          × (destination_of s c (receiver_of c) own ≡ ok u))

  some_url-eq :
      (r : Res Url) (o : Option Url) → some_url s r ≡ ok o → (u : Url) × ((r ≡ ok u) × (some u ≡ o))
  some_url-eq (err e) o h = absurd cc
  some_url-eq (ok u) o h = (u, (refl, cc))

  routed-Decided :
      (own : Str) (c : List (Str × Json)) (o : Option Url) → routed s own c ≡ ok o → Decided own c o
  unfolding routed
  routed-Decided own c o h = elim (Bool-cases (is_empty (receiver_of c))) [
    | inl e ↦ absurd (ground arith)
    | inr e ↦ elim (Bool-cases (is_empty own)) [
      | inl f ↦ absurd (ground arith)
      | inr f ↦ elim (Bool-cases (equal_fold (receiver_of c) own)) [
        | inl g ↦ let k : none ≡ o = ground arith in subst (Decided own c) k g
        | inr g ↦
            let (a, b) =
              unless-ok (agreed_to_read_from s (receiver_of c))
                (some_url s (destination_of s c (receiver_of c) own)) o (rw (e, f, g) at h) in
            let (u, (d, same)) = some_url-eq (destination_of s c (receiver_of c) own) o b in
            subst (Decided own c) same (g, (a, d))
      ]
    ]
  ]

  -- A run leaves the context alone, or answers a request of its own, or sends another's on.
  abbrev pub IsLawful : StepContext → StepContext → Type 0
  IsLawful ctx after = (after ≡ ctx) ⊎ (IsAnswer s ctx after ⊎ IsSent s ctx after)

  with_record-IsLawful :
      (ctx : StepContext) (b : Binding) (payload : Json) (l : Lookup)
      → IsOurs s ctx
      → s.provider.decode ctx.body ≡ ok payload
      → binding_for s.binding_keys s.paths payload ≡ bound b
      → serves s.binding_keys (key b) ≡ true
      → s.provider.provider_record (key b) ≡ l
      → IsLawful ctx (with_record s ctx (key b) l).0
  with_record-IsLawful ctx b payload (not_published e) ours d n k l = inl refl
  with_record-IsLawful ctx b payload (unavailable e) ours d n k l = inl refl
  with_record-IsLawful ctx b payload (found plan) ours d n k l =
      by_result (serve s.provider plan ctx.body) refl
    where
      by_result :
          (r : Res Str) → serve s.provider plan ctx.body ≡ r → IsLawful ctx (answered s ctx r).0
      by_result (err e) same = inl refl
      by_result (ok body) same = inr (
          inl (record {
            ours = ours;
            payload = payload;
            decoded = d;
            binding = b;
            named = n;
            served = k;
            plan = plan;
            published = l;
            body = body;
            given = same;
            only = refl;
          }))

  with_binding-IsLawful :
      (ctx : StepContext) (payload : Json) (x : Found)
      → IsOurs s ctx
      → s.provider.decode ctx.body ≡ ok payload
      → binding_for s.binding_keys s.paths payload ≡ x
      → IsLawful ctx (with_binding s ctx x).0
  with_binding-IsLawful ctx payload no_binding ours d n = inl refl
  with_binding-IsLawful ctx payload (refused e) ours d n = inl refl
  with_binding-IsLawful ctx payload (bound b) ours d n =
      elim (Bool-cases (serves s.binding_keys (key b))) [
        | inl k ↦ rw k (
            with_record-IsLawful ctx b payload (s.provider.provider_record (key b)) ours d n k refl)
        | inr k ↦ rw k (inl refl)
      ]

  with_payload-IsLawful :
      (ctx : StepContext) (r : Res Json)
      → IsOurs s ctx
      → s.provider.decode ctx.body ≡ r
      → IsLawful ctx (with_payload s ctx r).0
  with_payload-IsLawful ctx (err e) ours d = inl refl
  with_payload-IsLawful ctx (ok payload) ours d =
      with_binding-IsLawful ctx payload (binding_for s.binding_keys s.paths payload) ours d refl

  after_routing-IsSent :
      (ctx : StepContext) (c : List (Str × Json)) (u : Url)
      → s.beckn_context ctx.body ≡ ok c
      → Decided ctx.own_subscriber_id c (some u)
      → IsSent s ctx (after_routing s ctx (ok (some u))).0
  unfolding agreed_to_read_from
  after_routing-IsSent ctx c u readable (other, (agreed, d)) =
      let (ns, (listed, a)) = agreed_with-listed s.networks (receiver_of c) agreed in
      let (n, (i, (same, is_source))) = admitted_source-In ns (receiver_of c) a in
      record {
        context_read = c;
        readable = readable;
        not_ours = other;
        networks = ns;
        listed = listed;
        network = n;
        admitted = i;
        receiver = same;
        source = is_source;
        target = u;
        addressed = d;
        only = refl;
      }

  after_routing-IsLawful :
      (ctx : StepContext) (r : Res (Option Url))
      → route_elsewhere s ctx ≡ r
      → IsLawful ctx (after_routing s ctx r).0
  unfolding route_elsewhere
  after_routing-IsLawful ctx (err e) h = inl refl
  after_routing-IsLawful ctx (ok o) h =
      let (c, readable, k) =
        >>=-eq-ok (map_err _ (s.beckn_context ctx.body)) (λ c. routed s ctx.own_subscriber_id c)
          h in
      by_decision c o (map_err-eq-ok _ (s.beckn_context ctx.body) readable)
        (routed-Decided ctx.own_subscriber_id c o k)
    where
      by_decision :
          (c : List (Str × Json)) (o : Option Url)
          → s.beckn_context ctx.body ≡ ok c
          → Decided ctx.own_subscriber_id c o
          → IsLawful ctx (after_routing s ctx (ok o)).0
      by_decision c none readable ours =
          with_payload-IsLawful ctx (s.provider.decode ctx.body) (c, (readable, ours)) refl
      by_decision c (some u) readable other =
          inr (inr (after_routing-IsSent ctx c u readable other))

  -- A run of the step leaves the context as it is, or sets the response body alone, for a request that
  -- is addressed to this module and names a served binding, or sets the route and the signing
  -- subscriber alone, for a request to an admitted network that agreed to be a source.
  pub run-IsLawful : (ctx : StepContext) → IsLawful ctx (run s ctx).0
  unfolding run
  run-IsLawful ctx = elim (Bool-cases (is_some ctx.route)) [
    | inl e ↦ rw e (inl refl)
    | inr e ↦ rw e (after_routing-IsLawful ctx (route_elsewhere s ctx) refl)
  ]
