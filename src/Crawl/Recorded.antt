-- ===== src/Crawl/Recorded.antt =====
-- What a failure and a settle without an envelope leave of a catalog.
use network_adapter.Prelude.{
  ◌≡◌, refl, sym, ◌∙◌, ap, false, Option, none, some, [], ◌∷◌, arith, get_or, Str, str_eq, lookup,
  insert, lookup-insert_self,
}
use network_adapter.Crawl.Cursor.{
  CatalogCursor, PassReport, CatalogRow, Catalogs, Envelope, null_str, settled_row, upsert_catalog,
  read_cursor, get_catalog_cursor, read_envelope, get_catalog_envelope, failed_row, record_failure,
}
use network_adapter.Crawl.Settle.{upsert_catalog-eq}

record_failure-eq :
    (p : PassReport) (t : Catalogs) {t' : Catalogs}
    → record_failure p t ≡ some t'
    → insert p.catalog_id (failed_row p (lookup p.catalog_id t)) t ≡ t'
unfolding record_failure
record_failure-eq p t h = ground arith

-- What GetCatalogCursor reads after a failure: what it read before, with the index and the
-- participant of the report, and zeros for a catalog that was never settled.
abbrev pub after_failure : PassReport → Option CatalogCursor → CatalogCursor
after_failure p none = record {
  catalog_id = p.catalog_id;
  index_url = p.index_url;
  participant_id = p.participant_id;
  version = 0;
  entry_version = 0;
  retired = false;
  descriptor = [];
  provider = [];
  catalog_type = [];
}
after_failure p (some c) = record c { index_url = p.index_url; participant_id = p.participant_id }

null_str-get_or : (s : Str) → get_or (null_str s) [] ≡ s
unfolding null_str
null_str-get_or [] = refl
null_str-get_or (a ∷ s) = refl

failed_row-read :
    (p : PassReport) (old : Option CatalogRow)
    → read_cursor p.catalog_id (some (failed_row p old))
      ≡ some (after_failure p (read_cursor p.catalog_id old))
unfolding failed_row str_eq
failed_row-read p none = ground (arith, null_str-get_or p.participant_id)
failed_row-read p (some r) = ground (arith, null_str-get_or p.participant_id)

-- A recorded failure moves no version and retires nothing; a catalog that was never settled is read
-- back as settled at version 0.
pub record_failure-get_catalog_cursor :
    (p : PassReport) (t : Catalogs) {t' : Catalogs}
    → record_failure p t ≡ some t'
    → get_catalog_cursor p.catalog_id t'
      ≡ some (after_failure p (get_catalog_cursor p.catalog_id t))
unfolding get_catalog_cursor
record_failure-get_catalog_cursor p t h =
    ap (λ m. read_cursor p.catalog_id (lookup p.catalog_id m)) (sym (record_failure-eq p t h))
    ∙ (ap (read_cursor p.catalog_id)
          (lookup-insert_self p.catalog_id (failed_row p (lookup p.catalog_id t)) t)
        ∙ failed_row-read p (lookup p.catalog_id t))

abbrev pub with_participant : Str → Option Envelope → Option Envelope
with_participant id none = none
with_participant id (some e) = some (record e { participant_id = id })

settled_row-envelope :
    (c : CatalogCursor) (old : Option CatalogRow)
    → c.descriptor ≡ []
    → c.provider ≡ []
    → c.catalog_type ≡ []
    → read_envelope (some (settled_row c old))
      ≡ with_participant c.participant_id (read_envelope old)
unfolding settled_row null_str
settled_row-envelope c none a b d = ground (arith, null_str-get_or c.participant_id)
settled_row-envelope c (some r) a b d = ground (arith, null_str-get_or c.participant_id)

-- A settle that brings no envelope, as of a retired catalog, leaves the one that a settle before
-- stored.
pub upsert_catalog-get_catalog_envelope :
    (c : CatalogCursor) (t : Catalogs) {t' : Catalogs}
    → c.descriptor ≡ []
    → c.provider ≡ []
    → c.catalog_type ≡ []
    → upsert_catalog c t ≡ some t'
    → get_catalog_envelope c.catalog_id t'
      ≡ with_participant c.participant_id (get_catalog_envelope c.catalog_id t)
unfolding get_catalog_envelope
upsert_catalog-get_catalog_envelope c t a b d h =
    ap (λ m. read_envelope (lookup c.catalog_id m)) (sym (upsert_catalog-eq c t h))
    ∙ (ap read_envelope (lookup-insert_self c.catalog_id (settled_row c (lookup c.catalog_id t)) t)
        ∙ settled_row-envelope c (lookup c.catalog_id t) a b d)
