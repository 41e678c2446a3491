-- ===== src/Crawl/Sound.antt =====
-- The invariant of the work queue.
use network_adapter.Prelude.{ℕ, ◌≡◌, refl, Bool, true, false, not, ◌&&◌, is_some, arith, Str}
use network_adapter.Crawl.Queue.{
  QueueStatus, Due, QueueItem, QueueRow, new_row, coalesce, is_ready, claim, is_held, release,
  parked_row, is_long_parked, may_revive, must_abandon, revive, abandon,
}

abbrev is_never : Due → Bool
is_never (Due.at t) = false
is_never Due.infinity = true

abbrev is_free : QueueRow → Bool
is_free r = not (is_some r.claimed_at) && not (is_some r.claim_id)

abbrev sound_as : QueueStatus → QueueRow → Bool
sound_as QueueStatus.queued r =
    is_free r
    && (not (is_never r.next_attempt_at)
        && (not (is_some r.parked_at) && not (is_some r.abandoned_at)))
sound_as QueueStatus.in_progress r =
    is_some r.claimed_at
    && (is_some r.claim_id
        && (not (is_never r.next_attempt_at)
            && (not (is_some r.parked_at) && not (is_some r.abandoned_at))))
sound_as QueueStatus.parked r =
    is_free r
    && (is_never r.next_attempt_at && (is_some r.parked_at && not (is_some r.abandoned_at)))
sound_as QueueStatus.abandoned r =
    is_free r && (is_never r.next_attempt_at && (is_some r.parked_at && is_some r.abandoned_at))

-- Exactly a row in progress is claimed, by a time and a claim id; exactly parked and abandoned rows
-- are due never; they alone have a time of parking, and abandoned rows one of being abandoned.
unfoldable pub is_sound : QueueRow → Bool
is_sound r = sound_as r.status r

abbrev pub IsSound : QueueRow → Type 0
IsSound r = is_sound r ≡ true

pub new_row-IsSound : (now : ℕ) (id : Str) (item : QueueItem) → IsSound (new_row now id item)
unfolding is_sound new_row
new_row-IsSound now id item = refl

pub coalesce-IsSound :
    (now : ℕ) (item : QueueItem) (r : QueueRow) → IsSound r → IsSound (coalesce now item r)
unfolding is_sound coalesce
coalesce-IsSound now item r h = ground arith

pub claim-IsSound :
    (now : ℕ) (locked : Str → Bool) (token : Str) (r : QueueRow)
    → IsSound r
    → is_ready now locked r ≡ true
    → IsSound (claim now token r)
unfolding is_sound claim is_ready
claim-IsSound now locked token r h k = ground arith

pub release-IsSound :
    (next : ℕ) (r : QueueRow)
    → IsSound r
    → is_some r.claim_id ≡ true
    → IsSound (release (Due.at next) r)
unfolding is_sound release
release-IsSound next r h k = ground arith

pub parked_row-IsSound :
    (now : ℕ) (r : QueueRow) → IsSound r → is_some r.claim_id ≡ true → IsSound (parked_row now r)
unfolding is_sound parked_row
parked_row-IsSound now r h k = ground arith

pub is_held-claim_id :
    (id c : Str) (r : QueueRow) → is_held id c r ≡ true → is_some r.claim_id ≡ true
unfolding is_held
is_held-claim_id id c r h = ground arith

pub revive-IsSound :
    (now since max : ℕ) (r : QueueRow)
    → IsSound r
    → may_revive since max r ≡ true
    → IsSound (revive now r)
unfolding is_sound revive may_revive is_long_parked
revive-IsSound now since max r h k = ground arith

pub abandon-IsSound :
    (now since max : ℕ) (r : QueueRow)
    → IsSound r
    → must_abandon since max r ≡ true
    → IsSound (abandon now r)
unfolding is_sound abandon must_abandon is_long_parked
abandon-IsSound now since max r h k = ground arith
