-- ===== src/Crawl/Cursor.antt =====
-- internal/store/cursor.go and scan.go: the settled state of each catalog, and Complete of queue.go.
-- The table is kept by its primary key; jsonb columns keep their text.
use network_adapter.Prelude.{
  ℕ, Bool, not, ◌&&◌, Option, none, some, List, [], if◌then◌else◌, is_empty, is_some, get_or, Str,
  str_eq, lookup, insert,
}
use network_adapter.Text.{str}
use network_adapter.Crawl.Table.{delete_where}
use network_adapter.Crawl.Queue.{QueueRow, is_held}

-- crawlmanager.CatalogCursor
pub record CatalogCursor : Type 0 where
  pub catalog_id : Str
  pub index_url : Str
  pub participant_id : Str
  pub version : ℕ
  pub entry_version : ℕ
  pub retired : Bool
  pub descriptor : Str
  pub provider : Str
  pub catalog_type : Str

-- crawlmanager.PassReport, as far as RecordFailure reads it.
pub record PassReport : Type 0 where
  pub catalog_id : Str
  pub index_url : Str
  pub participant_id : Str
  pub error : Str

-- A row of crawler_catalog, without the columns that these statements only write.
pub record CatalogRow : Type 0 where
  pub index_url : Str
  pub participant_id : Option Str
  pub version : Option ℕ
  pub entry_version : Option ℕ
  pub status : Str
  pub reason : Option Str
  pub descriptor : Option Str
  pub provider : Option Str
  pub catalog_type : Option Str

abbrev pub Catalogs : Type 0
Catalogs = List (Str × CatalogRow)

-- nullStr and nullBytes
unfoldable pub null_str : Str → Option Str
null_str s = if is_empty s then none else some s

-- COALESCE
abbrev pub coalesce : Option Str → Option Str → Option Str
coalesce none b = b
coalesce (some a) b = some a

abbrev kept : (CatalogRow → Option Str) → Option CatalogRow → Option Str
kept f none = none
kept f (some r) = f r

-- The row that upsertCatalog leaves, over the row that there was.
unfoldable pub settled_row : CatalogCursor → Option CatalogRow → CatalogRow
settled_row c old = record {
  index_url = c.index_url;
  participant_id = null_str c.participant_id;
  version = some c.version;
  entry_version = some c.entry_version;
  status = if c.retired then str "retired" else str "active";
  reason = none;
  descriptor = coalesce (null_str c.descriptor) (kept (λ r. r.descriptor) old);
  provider = coalesce (null_str c.provider) (kept (λ r. r.provider) old);
  catalog_type = coalesce (null_str c.catalog_type) (kept (λ r. r.catalog_type) old);
}

-- upsertCatalog; none where the statement fails, as index_url is NOT NULL.
unfoldable pub upsert_catalog : CatalogCursor → Catalogs → Option Catalogs
upsert_catalog c t =
    if is_empty c.index_url
    then none
    else some (insert c.catalog_id (settled_row c (lookup c.catalog_id t)) t)

abbrev pub read_cursor : Str → Option CatalogRow → Option CatalogCursor
read_cursor k none = none
read_cursor k (some r) = some (record {
  catalog_id = k;
  index_url = r.index_url;
  participant_id = get_or r.participant_id [];
  version = get_or r.version 0;
  entry_version = get_or r.entry_version 0;
  retired = str_eq r.status (str "retired");
  descriptor = [];
  provider = [];
  catalog_type = [];
})

-- GetCatalogCursor
unfoldable pub get_catalog_cursor : Str → Catalogs → Option CatalogCursor
get_catalog_cursor k t = read_cursor k (lookup k t)

-- What GetCatalogEnvelope returns.
pub record Envelope : Type 0 where
  pub descriptor : Str
  pub provider : Str
  pub catalog_type : Str
  pub participant_id : Str

abbrev pub read_envelope : Option CatalogRow → Option Envelope
read_envelope none = none
read_envelope (some r) =
    if not (is_some r.descriptor) && not (is_some r.provider)
    then none
    else some (record {
      descriptor = get_or r.descriptor [];
      provider = get_or r.provider [];
      catalog_type = get_or r.catalog_type [];
      participant_id = get_or r.participant_id [];
    })

-- GetCatalogEnvelope
unfoldable pub get_catalog_envelope : Str → Catalogs → Option Envelope
get_catalog_envelope k t = read_envelope (lookup k t)

-- The row that RecordFailure leaves.
unfoldable pub failed_row : PassReport → Option CatalogRow → CatalogRow
failed_row p none = record {
  index_url = p.index_url;
  participant_id = null_str p.participant_id;
  version = none;
  entry_version = none;
  status = str "active";
  reason = null_str p.error;
  descriptor = none;
  provider = none;
  catalog_type = none;
}
failed_row p (some r) = record r {
  index_url = p.index_url;
  participant_id = null_str p.participant_id;
  reason = null_str p.error;
}

-- RecordFailure; none where the statement fails.
unfoldable pub record_failure : PassReport → Catalogs → Option Catalogs
record_failure p t =
    if is_empty p.index_url
    then none
    else some (insert p.catalog_id (failed_row p (lookup p.catalog_id t)) t)

abbrev pub completed :
    Str → Str → List QueueRow → Option Catalogs → Option (Catalogs × List QueueRow)
completed id c rows none = none
completed id c rows (some t) = some (t, delete_where (is_held id c) rows)

-- Complete: both tables in one transaction; none where it is rolled back.
unfoldable pub complete :
    Str → Str → CatalogCursor → Catalogs → List QueueRow → Option (Catalogs × List QueueRow)
complete id c cursor t rows = completed id c rows (upsert_catalog cursor t)
