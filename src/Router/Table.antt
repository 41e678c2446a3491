-- ===== src/Router/Table.antt =====
-- Reading the routing table back.
use network_adapter.Prelude.{
  ◌≡◌, ◌&&◌, Option, some, arith, if◌then◌else◌, Str, str_eq, str_eq_iff, lookup, insert,
  lookup-insert, All, All-insert, All-lookup, Option-cases, inl, inr,
}
use network_adapter.Model.{Route}
use network_adapter.Router.Load.{Table, Versions, Endpoints, versions_of, endpoints_of, put, ensure}

-- The route stored for a domain, a version and an endpoint.
abbrev pub table_get : Table → Str → Str → Str → Option (Option Route)
table_get table domain version endpoint = lookup endpoint (endpoints_of domain version table)

pub table_get-put :
    (d v e : Str) (r : Option Route) (table : Table) (d' v' e' : Str)
    → table_get (put d v e r table) d' v' e'
      ≡ (if str_eq d d' && (str_eq v v' && str_eq e e') then some r else table_get table d' v' e')
unfolding put
table_get-put d v e r table d' v' e' =
    let inner = insert e r (endpoints_of d v table) in
    let middle = insert v inner (versions_of d table) in
    ground (
      arith,
      lookup-insert d d' middle table,
      lookup-insert v v' inner (versions_of d table),
      lookup-insert e e' r (endpoints_of d v table),
      str_eq_iff d d',
      str_eq_iff v v',
      str_eq_iff e e',
    )

pub table_get-ensure :
    (d v : Str) (table : Table) (d' v' e' : Str)
    → table_get (ensure d v table) d' v' e' ≡ table_get table d' v' e'
unfolding ensure
table_get-ensure d v table d' v' e' =
    let middle = insert v (endpoints_of d v table) (versions_of d table) in
    ground (
      arith,
      lookup-insert d d' middle table,
      lookup-insert v v' (endpoints_of d v table) (versions_of d table),
      str_eq_iff d d',
      str_eq_iff v v',
    )

-- A property of every route that a table holds.
module _ (P : Option Route → Type 0) where
  abbrev pub AllRoutes : Table → Type 0
  AllRoutes table = All (λ b. All (λ c. All (λ e. P e.1) c.1) b.1) table

  abbrev pub AllIn : Versions → Type 0
  AllIn versions = All (λ c. All (λ e. P e.1) c.1) versions

  abbrev pub AllAt : Endpoints → Type 0
  AllAt endpoints = All (λ e. P e.1) endpoints

  AllIn-versions_of : (d : Str) (table : Table) → AllRoutes table → AllIn (versions_of d table)
  AllIn-versions_of d table h = elim (Option-cases (lookup d table)) [
    | inl e ↦ rw e tt
    | inr (versions, e) ↦ rw e (All-lookup AllIn d table h e)
  ]

  AllAt-endpoints_of :
      (d v : Str) (table : Table) → AllRoutes table → AllAt (endpoints_of d v table)
  AllAt-endpoints_of d v table h = elim (Option-cases (lookup v (versions_of d table))) [
    | inl e ↦ rw e tt
    | inr (endpoints, e) ↦
        rw e (All-lookup AllAt v (versions_of d table) (AllIn-versions_of d table h) e)
  ]

  pub AllRoutes-put :
      (d v e : Str) (r : Option Route) (table : Table)
      → P r
      → AllRoutes table
      → AllRoutes (put d v e r table)
  unfolding put
  AllRoutes-put d v e r table p h =
      All-insert AllIn d _ table
        (All-insert AllAt v _ (versions_of d table)
          (All-insert P e r (endpoints_of d v table) p (AllAt-endpoints_of d v table h))
          (AllIn-versions_of d table h))
        h

  pub AllRoutes-ensure :
      (d v : Str) (table : Table) → AllRoutes table → AllRoutes (ensure d v table)
  unfolding ensure
  AllRoutes-ensure d v table h =
      All-insert AllIn d _ table
        (All-insert AllAt v _ (versions_of d table) (AllAt-endpoints_of d v table h)
          (AllIn-versions_of d table h))
        h

  pub AllRoutes-get :
      (d v e : Str) (table : Table) {r : Option Route}
      → AllRoutes table
      → table_get table d v e ≡ some r
      → P r
  AllRoutes-get d v e table h found =
      All-lookup P e (endpoints_of d v table) (AllAt-endpoints_of d v table h) found
