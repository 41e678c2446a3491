-- ===== src/Tests/Crawl.antt =====
-- The catalog crawler's store at concrete inputs.
use mathlib.Core.Option
use network_adapter.Prelude.{
  insert, lookup, ◌≡◌, refl, Bool, true, false, Option, none, some, List, [], ◌∷◌, any, Str, str_eq,
  if◌then◌else◌,
}
use network_adapter.Text.{str}
use network_adapter.Crawl.Table.{update_where, delete_where, upsert}
use network_adapter.Crawl.Queue.{
  QueueItem, QueueRow, ClaimedItem, of_catalog, new_row, enqueue, is_ready, pick, claim, has_id,
  claim_next, is_held, is_long_parked, requeue_or_abandon_parked, revive_parked, park, may_revive,
  parked_row,
}
use network_adapter.Crawl.Cursor.{
  CatalogCursor, PassReport, Catalogs, upsert_catalog, complete, settled_row, get_catalog_cursor,
}
use network_adapter.Crawl.Reachable.{QueueStep, Reachable, IsSoundQueue, Reachable-IsSoundQueue}
use network_adapter.Crawl.Claimed.{IsExclusive, claim_next-IsExclusive}
use network_adapter.Crawl.Enqueued.{is_pending, enqueue-is_pending}
use network_adapter.Crawl.Sweep.{swept, row_of, requeue_or_abandon_parked-swept}
use network_adapter.Crawl.Settle.{bare, complete-get_catalog_cursor, complete-not_held}

abbrev item : QueueItem
item = record { catalog_id = str "seeds"; index_url = str "https://a.example/index"; op = [] }

abbrev nobody : Str → Bool
nobody id = false

abbrev participant : Str → Str
participant u = str "a.example"

abbrev queued_rows : List QueueRow
queued_rows = enqueue 100 (str "q1") item []

abbrev claimed : List QueueRow × Option ClaimedItem
claimed = claim_next participant 200 nobody (str "t1") queued_rows

abbrev given : ClaimedItem
given = record {
  id = str "q1";
  claim_id = str "t1";
  catalog_id = str "seeds";
  index_url = str "https://a.example/index";
  op = str "sync";
  attempts = 0;
  participant_id = str "a.example";
}

claim_next-IsExclusive_example : IsExclusive 200 nobody (str "t1") queued_rows claimed.0 given
unfolding claim_next enqueue upsert new_row of_catalog is_ready pick update_where has_id claim
    str_eq
claim_next-IsExclusive_example =
    claim_next-IsExclusive participant 200 nobody (str "t1") queued_rows refl

Reachable-IsSoundQueue_example : IsSoundQueue claimed.0
Reachable-IsSoundQueue_example = Reachable-IsSoundQueue (
    Reachable.after
      (Reachable.after Reachable.empty (QueueStep.enqueues 100 (str "q1") item [] refl))
      (QueueStep.claims participant 200 nobody (str "t1") queued_rows))

abbrev parked_rows : List QueueRow
parked_rows = park 300 (str "q1") (str "t1") claimed.0

enqueue-is_pending_example :
    any (is_pending 400 item) (enqueue 400 (str "q2") item parked_rows) ≡ true
enqueue-is_pending_example = enqueue-is_pending 400 (str "q2") item parked_rows

-- Another catalog is enqueued between the two updates.
abbrev enqueue_other : List QueueRow → List QueueRow
enqueue_other rows =
    enqueue 950 (str "q3")
      (record { catalog_id = str "tools"; index_url = str "https://a.example/index"; op = [] }) rows

requeue_or_abandon_parked-swept_example :
    row_of (str "q1") (requeue_or_abandon_parked 900 500 1000 600 0 enqueue_other parked_rows).0
    ≡ Option.map (swept 900 500 1000 600 0) (row_of (str "q1") parked_rows)
unfolding revive_parked row_of enqueue upsert update_where has_id str_eq of_catalog new_row park
    claim_next is_held is_ready pick claim may_revive is_long_parked parked_row
requeue_or_abandon_parked-swept_example =
    requeue_or_abandon_parked-swept 900 500 1000 600 0 enqueue_other (str "q1") parked_rows refl

abbrev cursor : CatalogCursor
cursor = record {
  catalog_id = str "seeds";
  index_url = str "https://a.example/index";
  participant_id = str "a.example";
  version = 7;
  entry_version = 9;
  retired = false;
  descriptor = str "{}";
  provider = [];
  catalog_type = [];
}

abbrev settled_catalogs : Catalogs
settled_catalogs = (str "seeds", settled_row cursor none) ∷ []

complete-get_catalog_cursor_example :
    ((k : Str)
      → get_catalog_cursor k settled_catalogs
        ≡ (if str_eq (str "seeds") k then some (bare cursor) else get_catalog_cursor k []))
    × (any (is_held (str "q1") (str "t1")) [] ≡ false)
unfolding complete upsert_catalog settled_row is_held delete_where claim_next enqueue upsert new_row
    of_catalog is_ready pick update_where has_id claim str_eq insert lookup
complete-get_catalog_cursor_example =
    complete-get_catalog_cursor (str "q1") (str "t1") cursor [] claimed.0 refl

complete-not_held_example :
    (claimed.0 ≡ claimed.0)
    × (get_catalog_cursor (str "seeds") settled_catalogs ≡ some (bare cursor))
unfolding complete upsert_catalog settled_row is_held delete_where claim_next enqueue upsert new_row
    of_catalog is_ready pick update_where has_id claim str_eq insert lookup
complete-not_held_example = complete-not_held (str "q1") (str "t0") cursor [] claimed.0 refl refl

abbrev report : PassReport
report = record {
  catalog_id = str "seeds";
  index_url = str "https://a.example/index";
  participant_id = str "a.example";
  error = str "timeout";
}

abbrev retired_cursor : CatalogCursor
retired_cursor = record cursor { version = 8; retired = true; descriptor = [] }
