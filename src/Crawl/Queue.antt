-- ===== src/Crawl/Queue.antt =====
-- internal/store/queue.go: the work queue, whose rows the database keeps. A statement is one atomic
-- step; times are microseconds of the database's clock.
use network_adapter.Prelude.{
  ℕ, suc, ◌+◌, ◌*◌, Bool, true, false, not, ◌&&◌, Option, none, some, List, [], ◌∷◌, if◌then◌else◌,
  ltb, leb, is_some, is_empty, Str, str_eq,
}
use network_adapter.Text.{str}
use network_adapter.Crawl.Table.{update_where, count_where, upsert}

-- The status column.
pub data QueueStatus : Type 0 where
  queued : QueueStatus
  in_progress : QueueStatus
  parked : QueueStatus
  abandoned : QueueStatus

-- A timestamptz, with Postgres's infinity.
pub data Due : Type 0 where
  at : ℕ → Due
  infinity : Due

-- crawlmanager.QueueItem
pub record QueueItem : Type 0 where
  pub catalog_id : Str
  pub index_url : Str
  pub op : Str

-- A row of crawler_queue, without the columns that these statements only write.
pub record QueueRow : Type 0 where
  pub id : Str
  pub catalog_id : Str
  pub index_url : Str
  pub op : Str
  pub status : QueueStatus
  pub attempts : ℕ
  pub park_count : ℕ
  pub next_attempt_at : Due
  pub claimed_at : Option ℕ
  pub claim_id : Option Str
  pub parked_at : Option ℕ
  pub abandoned_at : Option ℕ

-- crawlmanager.ClaimedItem
pub record ClaimedItem : Type 0 where
  pub id : Str
  pub claim_id : Str
  pub catalog_id : Str
  pub index_url : Str
  pub op : Str
  pub attempts : ℕ
  pub participant_id : Str

-- claimLease, 15 minutes
abbrev pub claim_lease : ℕ
claim_lease = 15 * 60 * 1000000

abbrev pub is_parked : QueueStatus → Bool
is_parked QueueStatus.parked = true
is_parked _ = false

abbrev pub is_due : ℕ → Due → Bool
is_due now (Due.at t) = leb t now
is_due now Due.infinity = false

abbrev pub due_leb : Due → Due → Bool
due_leb (Due.at s) (Due.at t) = leb s t
due_leb (Due.at s) Due.infinity = true
due_leb Due.infinity (Due.at t) = false
due_leb Due.infinity Due.infinity = true

-- `x <= t`, which is not true of a NULL.
abbrev pub is_by : Option ℕ → ℕ → Bool
is_by none t = false
is_by (some x) t = leb x t

unfoldable pub of_catalog : Str → QueueRow → Bool
of_catalog c r = str_eq r.catalog_id c

-- The row that Enqueue inserts.
unfoldable pub new_row : ℕ → Str → QueueItem → QueueRow
new_row now id item = record {
  id = id;
  catalog_id = item.catalog_id;
  index_url = item.index_url;
  op = if is_empty item.op then str "sync" else item.op;
  status = QueueStatus.queued;
  attempts = 0;
  park_count = 0;
  next_attempt_at = Due.at now;
  claimed_at = none;
  claim_id = none;
  parked_at = none;
  abandoned_at = none;
}

-- ON CONFLICT DO UPDATE SET
unfoldable pub coalesce : ℕ → QueueItem → QueueRow → QueueRow
coalesce now item r =
    let free = not (is_some r.claimed_at) in
    record r {
      index_url = item.index_url;
      op = if is_empty item.op then str "sync" else item.op;
      status = if free then QueueStatus.queued else r.status;
      attempts = if free then 0 else r.attempts;
      next_attempt_at = if free then Due.at now else r.next_attempt_at;
      parked_at = if free then none else r.parked_at;
      abandoned_at = if free then none else r.abandoned_at;
    }

-- Enqueue, with the id that the database generates.
unfoldable pub enqueue : ℕ → Str → QueueItem → List QueueRow → List QueueRow
enqueue now id item rows =
    upsert (of_catalog item.catalog_id) (new_row now id item) (coalesce now item) rows

-- The WHERE of ClaimNext, for the rows that SKIP LOCKED does not skip.
abbrev pub is_claimable : ℕ → Option ℕ → Bool
is_claimable now none = true
is_claimable now (some c) = ltb (c + claim_lease) now

unfoldable pub is_ready : ℕ → (Str → Bool) → QueueRow → Bool
is_ready now locked r =
    not (locked r.id) && (is_claimable now r.claimed_at && is_due now r.next_attempt_at)

abbrev pub earlier : QueueRow → Option QueueRow → QueueRow
earlier r none = r
earlier r (some s) = if due_leb r.next_attempt_at s.next_attempt_at then r else s

-- ORDER BY next_attempt_at LIMIT 1; of rows due at one time, the first.
unfoldable pub pick : (QueueRow → Bool) → List QueueRow → Option QueueRow
pick p [] = none
pick p (r ∷ rs) = let rest = pick p rs in if p r then some (earlier r rest) else rest

unfoldable pub claim : ℕ → Str → QueueRow → QueueRow
claim now token r = record r {
  claimed_at = some now;
  status = QueueStatus.in_progress;
  claim_id = some token;
}

unfoldable pub has_id : Str → QueueRow → Bool
has_id id r = str_eq r.id id

abbrev pub claim_picked :
    (Str → Str) → ℕ → Str → List QueueRow → Option QueueRow → List QueueRow × Option ClaimedItem
claim_picked participant now token rows none = (rows, none)
claim_picked participant now token rows (some r) = (
  update_where (has_id r.id) (claim now token) rows,
  some (record {
    id = r.id;
    claim_id = token;
    catalog_id = r.catalog_id;
    index_url = r.index_url;
    op = r.op;
    attempts = r.attempts;
    participant_id = participant r.index_url;
  }),
)

-- ClaimNext: the participant of an index, the ids of the rows that other transactions lock, and
-- the claim id that the database generates are given.
unfoldable pub claim_next :
    (Str → Str) → ℕ → (Str → Bool) → Str → List QueueRow → List QueueRow × Option ClaimedItem
claim_next participant now locked token rows =
    claim_picked participant now token rows (pick (is_ready now locked) rows)

abbrev pub is_claim : Str → Option Str → Bool
is_claim c none = false
is_claim c (some d) = str_eq d c

-- WHERE id = … AND claim_id = …
unfoldable pub is_held : Str → Str → QueueRow → Bool
is_held id c r = has_id id r && is_claim c r.claim_id

unfoldable pub release : Due → QueueRow → QueueRow
release next r = record r {
  attempts = suc r.attempts;
  next_attempt_at = next;
  claimed_at = none;
  claim_id = none;
  status = QueueStatus.queued;
}

-- Reschedule
unfoldable pub reschedule : Str → Str → ℕ → List QueueRow → List QueueRow
reschedule id c next rows = update_where (is_held id c) (release (Due.at next)) rows

unfoldable pub parked_row : ℕ → QueueRow → QueueRow
parked_row now r = record r {
  attempts = suc r.attempts;
  claimed_at = none;
  claim_id = none;
  status = QueueStatus.parked;
  next_attempt_at = Due.infinity;
  park_count = suc r.park_count;
  parked_at = some now;
}

-- Park
unfoldable pub park : ℕ → Str → Str → List QueueRow → List QueueRow
park now id c rows = update_where (is_held id c) (parked_row now) rows

-- The rows that a sweep finds parked since the time `since` or longer.
unfoldable pub is_long_parked : ℕ → QueueRow → Bool
is_long_parked since r = is_parked r.status && is_by r.parked_at since

unfoldable pub may_revive : ℕ → ℕ → QueueRow → Bool
may_revive since max r = is_long_parked since r && leb r.park_count max

unfoldable pub must_abandon : ℕ → ℕ → QueueRow → Bool
must_abandon since max r = is_long_parked since r && ltb max r.park_count

unfoldable pub revive : ℕ → QueueRow → QueueRow
revive now r = record r {
  status = QueueStatus.queued;
  attempts = 0;
  next_attempt_at = Due.at now;
  parked_at = none;
}

unfoldable pub abandon : ℕ → QueueRow → QueueRow
abandon now r = record r { status = QueueStatus.abandoned; abandoned_at = some now }

-- The first UPDATE of RequeueOrAbandonParked at the time `now`, and how many rows it changed;
-- `since` is its `now() - olderThan`.
unfoldable pub revive_parked : ℕ → ℕ → ℕ → List QueueRow → List QueueRow × ℕ
revive_parked now since max rows =
    (update_where (may_revive since max) (revive now) rows, count_where (may_revive since max) rows)

-- The second UPDATE of RequeueOrAbandonParked.
unfoldable pub abandon_parked : ℕ → ℕ → ℕ → List QueueRow → List QueueRow × ℕ
abandon_parked now since max rows = (
  update_where (must_abandon since max) (abandon now) rows,
  count_where (must_abandon since max) rows,
)

-- RequeueOrAbandonParked: the rows, and how many it revived and abandoned. Each UPDATE commits by
-- itself and reads its own clock; `others` is what other workers commit between the two.
unfoldable pub requeue_or_abandon_parked :
    ℕ → ℕ → ℕ → ℕ → ℕ → (List QueueRow → List QueueRow) → List QueueRow → List QueueRow × ℕ × ℕ
unfolding revive_parked abandon_parked
requeue_or_abandon_parked now since now' since' max others rows =
    let (after_revive, revived) = revive_parked now since max rows in
    let (after_abandon, abandoned_rows) = abandon_parked now' since' max (others after_revive) in
    (after_abandon, revived, abandoned_rows)
