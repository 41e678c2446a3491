-- ===== src/Router/Chosen.antt =====
-- What a chosen route promises to the handler.
use network_adapter.Prelude.{
  ◌≡◌, refl, sym, ◌&&◌, ◌||◌, Bool, true, false, Option, none, some, [], ◌∷◌, arith, Str, str_eq,
  str_eq_refl, str_eq_iff, subst, List, is_some, is_empty, if◌then◌else◌, inl, inr, Option-cases,
  Bool-cases, lookup, All-lookup,
}
use network_adapter.Text.{str, trim_space}
use network_adapter.Model.{Route, Url, extract_context}
use network_adapter.Json.{Json}
use network_adapter.Result.{Res, ok, err, Res-cases}
use network_adapter.Router.Join.{join_path}
use network_adapter.Router.Load.{
  Table, Versions, target_url, target_publisher, is_participant_type, is_receiver_type,
  is_sender_type,
}
use network_adapter.Router.Table.{AllRoutes, AllRoutes-get, table_get, AllIn}
use network_adapter.Router.Invariant.{IsRoutable}
use network_adapter.Router.Choose.{
  handle_protocol_mapping, resolve, find, route, route_bodyless, bodyless_loop, bodyless_route,
  with_query, default_destination, url_with_query, route_in_context, deref_ok,
}

-- The URL is set, and carries the query of the request if it has one.
abbrev pub carries : Str → Option Url → Bool
carries q none = false
carries q (some u) = is_empty q || str_eq u.raw_query q

-- A route that the handler can serve: a queue, or a URL that carries the query.
abbrev pub is_destination : Str → Route → Bool
is_destination q r =
    str_eq r.target_type target_publisher || (str_eq r.target_type target_url && carries q r.url)

abbrev pub reaches : Str → Res Route → Bool
reaches q (ok r) = is_destination q r
reaches q (err e) = true

-- A call that neither dereferences nil nor returns a route that the handler cannot serve.
abbrev pub reaches_safely : Str → Option (Res Route) → Bool
reaches_safely q none = false
reaches_safely q (some m) = reaches q m

with_query-carries : (q : Str) (u : Url) → carries q (some (with_query q u)) ≡ true
unfolding with_query
with_query-carries q u = ground (arith, str_eq_refl q)

target_url_self : str_eq target_url target_url ≡ true
target_url_self = str_eq_refl target_url

default_destination-reaches :
    (role endpoint q : Str) (u : Option Url)
    → reaches q (default_destination role endpoint q u) ≡ true
default_destination-reaches role endpoint q none = refl
default_destination-reaches role endpoint q (some u) =
    ground (arith, target_url_self, with_query-carries q u)

url_with_query-reaches :
    (q : Str) (r : Route) (u : Option Url)
    → r.url ≡ u
    → str_eq r.target_type target_url ≡ true
    → is_some u ≡ true
    → is_destination q (url_with_query q r u) ≡ true
url_with_query-reaches q r none e t h = cc
url_with_query-reaches q r (some u) e t h = ground (arith, target_url_self, with_query-carries q u)

url-not_publisher : (t : Str) → str_eq t target_url ≡ true → str_eq t target_publisher ≡ false
unfolding str_eq
url-not_publisher t h =
    subst (λ x. str_eq x target_publisher ≡ false) (sym ((str_eq_iff t target_url).0 h)) refl

url-is_some :
    (r : Route)
    → is_receiver_type r.target_type ≡ false
    → is_sender_type r.target_type ≡ false
    → str_eq r.target_type target_url ≡ true
    → IsRoutable (some r)
    → is_some r.url ≡ true
unfolding is_participant_type
url-is_some r e e' t h = ground (arith, url-not_publisher r.target_type t)

publisher-is_destination :
    (q : Str) (r : Route)
    → is_receiver_type r.target_type ≡ false
    → is_sender_type r.target_type ≡ false
    → str_eq r.target_type target_url ≡ false
    → IsRoutable (some r)
    → is_destination q r ≡ true
unfolding is_participant_type
publisher-is_destination q r e e' t h = ground arith

not_participant :
    (t : Str)
    → is_participant_type t ≡ false
    → (is_receiver_type t ≡ false) × (is_sender_type t ≡ false)
unfolding is_participant_type
not_participant t h = ground arith

url_with_query_self :
    (q : Str) (r : Route)
    → str_eq r.target_type target_url ≡ true
    → is_some r.url ≡ true
    → is_destination q (url_with_query q r r.url) ≡ true
url_with_query_self q r t h = url_with_query-reaches q r r.url refl t h

plain_route-reaches :
    (q : Str) (r : Route)
    → IsRoutable (some r)
    → (is_receiver_type r.target_type ≡ false) × (is_sender_type r.target_type ≡ false)
    → reaches q (if str_eq r.target_type target_url then ok (url_with_query q r r.url) else ok r)
      ≡ true
plain_route-reaches q r h (e, e') = elim (Bool-cases (str_eq r.target_type target_url)) [
  | inl t ↦ rw t (url_with_query_self q r t (url-is_some r e e' t h))
  | inr t ↦ rw t (publisher-is_destination q r e e' t h)
]

module _ (url_parse : Str → Res Url) where
  handle_protocol_mapping-reaches :
      (r : Route) (np_uri endpoint q : Str)
      → reaches q (handle_protocol_mapping url_parse r np_uri endpoint q) ≡ true
  unfolding handle_protocol_mapping
  handle_protocol_mapping-reaches r np_uri endpoint q =
      elim (Bool-cases (is_empty (trim_space np_uri))) [
        | inl e ↦ rw e (default_destination-reaches _ endpoint q r.url)
        | inr e ↦ rw e (elim (Res-cases (url_parse (trim_space np_uri))) [
          | inl (u, p) ↦ rw p (
              ground (
                arith,
                target_url_self,
                with_query-carries q (record u { path = join_path u endpoint }),
              ))
          | inr (x, p) ↦ rw p
        ])
      ]

  resolve-reaches :
      (bpp bap endpoint q : Str) (r : Route)
      → IsRoutable (some r)
      → reaches q (resolve url_parse bpp bap endpoint q r) ≡ true
  unfolding resolve
  resolve-reaches bpp bap endpoint q r h = elim (Bool-cases (is_receiver_type r.target_type)) [
    | inl e ↦ rw e (handle_protocol_mapping-reaches r bpp endpoint q)
    | inr e ↦ rw e (elim (Bool-cases (is_sender_type r.target_type)) [
      | inl e' ↦ rw e' (handle_protocol_mapping-reaches r bap endpoint q)
      | inr e' ↦ rw e' (plain_route-reaches q r h (e, e'))
    ])
  ]

  find-table_get :
      (table : Table) (domain version endpoint : Str) {r : Option Route}
      → find table domain version endpoint ≡ ok r
      → table_get table domain version endpoint ≡ some r
  unfolding find
  find-table_get table domain version endpoint {r} h = ground arith

  bodyless_route-reaches :
      (endpoint version q : Str) (r : Route)
      → IsRoutable (some r)
      → reaches q (bodyless_route endpoint version q r) ≡ true
  bodyless_route-reaches endpoint version q r h =
      elim (Bool-cases (is_participant_type r.target_type)) [
        | inl e ↦ rw e
        | inr e ↦ rw e (plain_route-reaches q r h (not_participant r.target_type e))
      ]

  bodyless_loop-reaches :
      (endpoint q : Str) (versions : Versions)
      → AllIn IsRoutable versions
      → reaches_safely q (bodyless_loop endpoint q versions) ≡ true
  unfolding bodyless_loop
  bodyless_loop-reaches endpoint q [] h = refl
  bodyless_loop-reaches endpoint q ((version, endpoints) ∷ versions) h =
      elim (Option-cases (lookup endpoint endpoints)) [
        | inl e ↦ rw (e, reaches_safely) (bodyless_loop-reaches endpoint q versions h.1)
        | inr (none, e) ↦ absurd (cc (All-lookup IsRoutable endpoint endpoints h.0 e))
        | inr (some r, e) ↦
            rw (e, reaches_safely)
              (bodyless_route-reaches endpoint version q r
                (All-lookup IsRoutable endpoint endpoints h.0 e))
      ]

  route_bodyless-reaches :
      (table : Table) (endpoint q : Str)
      → AllRoutes IsRoutable table
      → reaches_safely q (route_bodyless table endpoint q) ≡ true
  unfolding route_bodyless
  route_bodyless-reaches table endpoint q h = elim (Option-cases (lookup (str "*") table)) [
    | inl e ↦ rw (e, reaches_safely)
    | inr (versions, e) ↦
        rw (e, reaches_safely)
          (bodyless_loop-reaches endpoint q versions
            (All-lookup (AllIn IsRoutable) (str "*") table h e))
  ]

  found-reaches :
      (table : Table) (d v e q : Str) (k : Route → Res Route)
      → AllRoutes IsRoutable table
      → ((r : Route) → IsRoutable (some r) → reaches q (k r) ≡ true)
      → reaches_safely q (deref_ok (find table d v e) k) ≡ true
  found-reaches table d v e q k h reach = elim (Res-cases (find table d v e)) [
    | inr (x, p) ↦ rw p
    | inl (none, p) ↦
        absurd (cc (AllRoutes-get IsRoutable d v e table h (find-table_get table d v e p)))
    | inl (some r, p) ↦
        rw p (reach r (AllRoutes-get IsRoutable d v e table h (find-table_get table d v e p)))
  ]

module _ (url_parse : Str → Res Url) (decode : Str → Res (List (Str × Json))) where
  route_in_context-reaches :
      (table : Table) (endpoint q : Str) (m : Res (List (Str × Json)))
      → AllRoutes IsRoutable table
      → reaches_safely q (route_in_context url_parse decode table endpoint q m) ≡ true
  route_in_context-reaches table endpoint q (err e) h = refl
  route_in_context-reaches table endpoint q (ok ctx) h =
      found-reaches url_parse table _ _ endpoint q _ h (resolve-reaches url_parse _ _ endpoint q)

  -- With a loaded table, Route never dereferences a nil route, and a route that it returns is one
  -- that the handler serves: a publisher route, or a `url` route with a URL that carries the query
  -- of the request.
  pub route-reaches :
      (table : Table) (u : Url) (body : Str)
      → AllRoutes IsRoutable table
      → reaches_safely u.raw_query (route url_parse decode table (some u) body) ≡ true
  unfolding route
  route-reaches table u body h = elim (Bool-cases (is_empty body)) [
    | inl e ↦ rw e (route_bodyless-reaches url_parse table u.path u.raw_query h)
    | inr e ↦
        rw e (route_in_context-reaches table u.path u.raw_query (extract_context (decode body)) h)
  ]
