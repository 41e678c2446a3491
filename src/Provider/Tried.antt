-- ===== src/Provider/Tried.antt =====
-- Which attempt a call's answer is from.
use network_adapter.Prelude.{
  ℕ, zero, suc, ◌≡◌, refl, ◌∙◌, ap, ◌↔◌, inl, inr, true, false, Option, none, some, arith, Str,
  Bool-cases, Bool,
}
use network_adapter.Errors.{GoErr}
use network_adapter.Result.{ok}
use network_adapter.Provider.Retry.{budget_retries}
use network_adapter.Provider.Call.{
  Outcome, World, Ending, answered, failed, done, stopped, after_attempt, after_failure, try_from,
  reported, report_stop, call,
}

-- The attempts from n on, with `left` of them left, come to the answer `body`: the first that does
-- not fail in a way worth repeating answers it, with no end of the request before it.
pub data Answers (w : World) (body : Str) : ℕ → ℕ → Type 0 where
  now :
      (n left : ℕ)
      → w.ended_before n ≡ false
      → w.outcome n ≡ answered body
      → Answers w body n (suc left)
  later :
      (n left : ℕ) (e : GoErr)
      → w.ended_before n ≡ false
      → w.outcome n ≡ failed false e
      → w.interrupted n ≡ false
      → Answers w body (suc n) (suc left)
      → Answers w body n (suc (suc left))

module _ (redact : GoErr → GoErr) (w : World) (body : Str) where
  try_from_complete :
      (left n : ℕ) (last : Option GoErr) (made : ℕ)
      → Answers w body n left
      → try_from redact w left n last made ≡ done body
  unfolding try_from
  try_from_complete zero n last made a = elim a [ ]
  try_from_complete (suc left) n last made (now _ _ alive a) = rw (alive, a) refl
  try_from_complete (suc (suc left)) n last made (later _ _ e alive f slept rest) =
      rw (alive, f, slept) (try_from_complete (suc left) (suc n) (some (redact e)) n rest)

  try_from_sound :
      (left n : ℕ) (last : Option GoErr) (made : ℕ)
      → try_from redact w left n last made ≡ done body
      → Answers w body n left
  unfolding try_from
  try_from_sound zero n last made h = absurd (let k : stopped last made false ≡ done body = h in cc)
  try_from_sound (suc left) n last made h = elim (Bool-cases (w.ended_before n)) [
    | inl e ↦ absurd (let k : stopped last made false ≡ done body = rw e at h in cc)
    | inr alive ↦
        by_outcome left n alive (w.outcome n) refl (rw alive at h)
          (λ l m k. try_from_sound left (suc n) l m k)
  ]
    where
      by_failure :
          (left n : ℕ) (e : GoErr)
          → w.ended_before n ≡ false
          → w.outcome n ≡ failed false e
          → after_failure redact w n left false e (λ l m. try_from redact w left (suc n) l m)
            ≡ done body
          → ((l : Option GoErr) (m : ℕ)
              → try_from redact w left (suc n) l m ≡ done body
              → Answers w body (suc n) left)
          → Answers w body n (suc left)
      by_failure zero n e alive f h next = absurd (ground arith)
      by_failure (suc left) n e alive f h next = elim (Bool-cases (w.interrupted n)) [
        | inl cut ↦ absurd (ground arith)
        | inr slept ↦ later n left e alive f slept (next (some (redact e)) n (rw slept at h))
      ]

      by_outcome :
          (left n : ℕ)
          → w.ended_before n ≡ false
          → (o : Outcome) → w.outcome n ≡ o
          → after_attempt redact w n left o (λ l m. try_from redact w left (suc n) l m) ≡ done body
          → ((l : Option GoErr) (m : ℕ)
              → try_from redact w left (suc n) l m ≡ done body
              → Answers w body (suc n) left)
          → Answers w body n (suc left)
      by_outcome left n alive (answered b) same h next =
          let e : b ≡ body = cc in now n left alive (same ∙ ap answered e)
      by_outcome left n alive (failed true e) same h next = absurd cc
      by_outcome left n alive (failed false e) same h next = by_failure left n e alive same h next

  report_stop-not_ok :
      (ended : Option GoErr) (final : Bool) (last : Option GoErr) (made : ℕ)
      → report_stop redact w ended final last made ≡ ok body
      → ⊥
  report_stop-not_ok (some e) false last made h = cc
  report_stop-not_ok (some e) true last made h = cc
  report_stop-not_ok none final last made h = cc

  reported-done : (x : Ending) → reported redact w x ≡ ok body → x ≡ done body
  reported-done (done b) h = let e : b ≡ body = cc in ap done e
  reported-done (stopped last made final) h = absurd (report_stop-not_ok w.ended final last made h)

-- A call returns a body exactly where one of its attempts answers with it, every attempt before
-- failed in a way worth repeating, and the request did not end before that; there are at most as
-- many attempts as the budget has retries, and one more.
pub call_iff :
    (redact : GoErr → GoErr) (w : World) (retry_max : ℕ) (body : Str)
    → (call redact w retry_max ≡ ok body) ↔ Answers w body 1 (suc (budget_retries retry_max))
unfolding call
call_iff redact w retry_max body = (
  λ h.
      try_from_sound redact w body (suc (budget_retries retry_max)) 1 none 0
        (reported-done redact w body _ h),
  λ a.
      ap (reported redact w)
        (try_from_complete redact w body (suc (budget_retries retry_max)) 1 none 0 a),
)
