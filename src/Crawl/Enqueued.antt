-- ===== src/Crawl/Enqueued.antt =====
-- What an enqueue leaves of the catalog that it is about.
use network_adapter.Prelude.{
  ℕ, ◌≡◌, ◌∙◌, Bool, true, false, ◌&&◌, ◌||◌, List, any, arith, is_some, Str, str_eq, str_eq_refl,
  if-both_when,
}
use network_adapter.Crawl.Table.{upsert, any-update_where_to}
use network_adapter.Crawl.Unique.{any-append_one}
use network_adapter.Crawl.Queue.{
  QueueItem, QueueRow, of_catalog, new_row, coalesce, enqueue, is_ready,
}

-- The row is that of the catalog and points to the index, and it is claimed or ready.
abbrev pub is_pending : ℕ → QueueItem → QueueRow → Bool
is_pending now item r =
    of_catalog item.catalog_id r
    && (str_eq r.index_url item.index_url && (is_some r.claimed_at || is_ready now (λ id. false) r))

coalesce-is_pending :
    (now : ℕ) (item : QueueItem) (r : QueueRow)
    → of_catalog item.catalog_id r ≡ true
    → is_pending now item (coalesce now item r) ≡ true
unfolding of_catalog is_ready coalesce
coalesce-is_pending now item r h = ground (arith, str_eq_refl item.index_url)

new_row-is_pending :
    (now : ℕ) (id : Str) (item : QueueItem) → is_pending now item (new_row now id item) ≡ true
unfolding of_catalog is_ready new_row
new_row-is_pending now id item =
    ground (arith, str_eq_refl item.index_url, str_eq_refl item.catalog_id)

-- After an enqueue the catalog is in the queue with the index of the item, and it is claimed by a
-- worker or ready at once, also where it was parked, abandoned or waiting for a retry.
pub enqueue-is_pending :
    (now : ℕ) (id : Str) (item : QueueItem) (rows : List QueueRow)
    → any (is_pending now item) (enqueue now id item rows) ≡ true
unfolding enqueue upsert
enqueue-is_pending now id item rows =
    if-both_when (λ l. any (is_pending now item) l ≡ true) (any (of_catalog item.catalog_id) rows)
      (λ e.
        any-update_where_to (of_catalog item.catalog_id) (is_pending now item) (coalesce now item)
          rows e (coalesce-is_pending now item))
      (λ e.
        any-append_one (is_pending now item) rows (new_row now id item)
        ∙ ground (arith, new_row-is_pending now id item))
