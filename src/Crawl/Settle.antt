-- ===== src/Crawl/Settle.antt =====
-- What a settled catalog is read back as.
use network_adapter.Prelude.{
  ◌≡◌, refl, sym, ◌∙◌, ap, subst, ◌⊎◌, true, false, Option, some, List, [], ◌∷◌, arith, Bool-cases,
  Option-cases, inl, inr, get_or, Str, str_eq, str_eq_iff, str_eq_refl, lookup, insert,
  lookup-insert, any, if◌then◌else◌,
}
use network_adapter.Crawl.Table.{delete_where, delete_where-none, any-deleted}
use network_adapter.Crawl.Queue.{QueueRow, is_held}
use network_adapter.Crawl.Cursor.{
  CatalogCursor, CatalogRow, Catalogs, null_str, settled_row, upsert_catalog, read_cursor,
  get_catalog_cursor, complete, completed,
}

-- The cursor without what GetCatalogCursor does not read.
abbrev pub bare : CatalogCursor → CatalogCursor
bare c = record c { descriptor = []; provider = []; catalog_type = [] }

null_str-get_or : (s : Str) → get_or (null_str s) [] ≡ s
unfolding null_str
null_str-get_or [] = refl
null_str-get_or (a ∷ s) = refl

settled_row-read :
    (c : CatalogCursor) (old : Option CatalogRow)
    → read_cursor c.catalog_id (some (settled_row c old)) ≡ some (bare c)
unfolding settled_row str_eq
settled_row-read c old = ground (arith, null_str-get_or c.participant_id)

pub upsert_catalog-eq :
    (c : CatalogCursor) (t : Catalogs) {t' : Catalogs}
    → upsert_catalog c t ≡ some t'
    → insert c.catalog_id (settled_row c (lookup c.catalog_id t)) t ≡ t'
unfolding upsert_catalog
upsert_catalog-eq c t h = ground arith

pub upsert_catalog-get :
    (c : CatalogCursor) (t : Catalogs) {t' : Catalogs}
    → upsert_catalog c t ≡ some t'
    → (k : Str)
    → get_catalog_cursor k t'
      ≡ (if str_eq c.catalog_id k then some (bare c) else get_catalog_cursor k t)
unfolding get_catalog_cursor
upsert_catalog-get c t {t'} h k =
    ap (λ m. read_cursor k (lookup k m)) (sym (upsert_catalog-eq c t h))
    ∙ (ap (read_cursor k) (lookup-insert c.catalog_id k (settled_row c (lookup c.catalog_id t)) t)
        ∙ by_key (Bool-cases (str_eq c.catalog_id k)))
  where
    by_key :
        (str_eq c.catalog_id k ≡ true) ⊎ (str_eq c.catalog_id k ≡ false)
        → read_cursor k (
            if str_eq c.catalog_id k
            then some (settled_row c (lookup c.catalog_id t))
            else lookup k t)
          ≡ (if str_eq c.catalog_id k then some (bare c) else read_cursor k (lookup k t))
    by_key (inl e) = rw e (
        subst (λ x. read_cursor x (some (settled_row c (lookup c.catalog_id t))) ≡ some (bare c))
          ((str_eq_iff c.catalog_id k).0 e) (settled_row-read c (lookup c.catalog_id t)))
    by_key (inr e) = rw e refl

complete-eq :
    (id c : Str) (cursor : CatalogCursor) (t : Catalogs) (rows : List QueueRow) {t' : Catalogs}
    {rows' : List QueueRow}
    → complete id c cursor t rows ≡ some (t', rows')
    → (upsert_catalog cursor t ≡ some t') × (delete_where (is_held id c) rows ≡ rows')
unfolding complete
complete-eq id c cursor t rows h = elim (Option-cases (upsert_catalog cursor t)) [
  | inl e ↦ absurd cc
  | inr (m, e) ↦
      let k : completed id c rows (some m) ≡ some (_, _) = rw e at h in
      let a : m ≡ _ = cc in let b : delete_where (is_held id c) rows ≡ _ = cc in (e ∙ ap some a, b)
]

-- Complete stores the cursor, which GetCatalogCursor then reads for that catalog, leaves every other
-- catalog alone, and takes the rows of its claim off the queue.
pub complete-get_catalog_cursor :
    (id c : Str) (cursor : CatalogCursor) (t : Catalogs) (rows : List QueueRow) {t' : Catalogs}
    {rows' : List QueueRow}
    → complete id c cursor t rows ≡ some (t', rows')
    → ((k : Str)
        → get_catalog_cursor k t'
          ≡ (if str_eq cursor.catalog_id k then some (bare cursor) else get_catalog_cursor k t))
      × (any (is_held id c) rows' ≡ false)
complete-get_catalog_cursor id c cursor t rows h =
    let (a, b) = complete-eq id c cursor t rows h in
    (
      upsert_catalog-get cursor t a,
      subst (λ l. any (is_held id c) l ≡ false) b (any-deleted (is_held id c) rows),
    )

-- A worker whose claim is no longer held still moves the cursor of the catalog, while the queue
-- keeps the row of the catalog for its new holder.
pub complete-not_held :
    (id c : Str) (cursor : CatalogCursor) (t : Catalogs) (rows : List QueueRow) {t' : Catalogs}
    {rows' : List QueueRow}
    → any (is_held id c) rows ≡ false
    → complete id c cursor t rows ≡ some (t', rows')
    → (rows' ≡ rows) × (get_catalog_cursor cursor.catalog_id t' ≡ some (bare cursor))
complete-not_held id c cursor t rows stale h =
    let (a, b) = complete-eq id c cursor t rows h in
    (
      sym b ∙ delete_where-none (is_held id c) rows stale,
      upsert_catalog-get cursor t a cursor.catalog_id ∙ rw (str_eq_refl cursor.catalog_id) refl,
    )
