-- ===== src/Provider/Call.antt =====
-- http.go: an attempt, and the loop that repeats it within the budget.
use network_adapter.Prelude.{
  ℕ, zero, suc, Bool, true, false, not, ◌&&◌, ◌||◌, Option, none, some, ◌++◌, if◌then◌else◌, ltb,
  leb, ◌==◌, length, Str,
}
use network_adapter.Text.{str, decimal}
use network_adapter.Errors.{GoErr, plain, wrapped, new_coded_err, text}
use network_adapter.Result.{Res, ok, err}
use network_adapter.Provider.Retry.{budget_retries}

-- The result of an attempt: a body, or an error with the answer of IsPermanent.
pub data Outcome : Type 0 where
  answered : Str → Outcome
  failed : Bool → GoErr → Outcome

-- What an attempt meets: whether the request can be built; the result of authenticate, with its own
-- IsPermanent; and what the client returns, with the read of the body.
pub record Exchange : Type 0 where
  pub built : Option GoErr
  pub authenticated : Option (Bool × GoErr)
  pub sent : Res (ℕ × Res Str)

-- A status outside 2xx: 5xx and 429 may be tried again.
unfoldable pub rejected : ℕ → Outcome
rejected status =
    failed (ltb status 500 && not (status == 429))
      (plain (str "provider returned " ++ decimal status))

unfoldable pub read_answer : ℕ → ℕ → Str → Outcome
read_answer limit status body =
    if ltb limit (length body)
    then failed true (plain (str "response exceeds the " ++ (decimal limit ++ str " byte limit")))
    else if ltb status 200 || leb 300 status
    then rejected status
    else answered body

abbrev received : ℕ → Res (ℕ × Res Str) → Outcome
received limit (err e) = failed false e
received limit (ok (status, err e)) = failed false (wrapped (str "could not read the response: ") e)
received limit (ok (status, ok body)) = read_answer limit status body

abbrev after_auth : ℕ → Exchange → Option (Bool × GoErr) → Outcome
after_auth limit x (some (p, e)) = failed p e
after_auth limit x none = received limit x.sent

abbrev after_build : ℕ → Exchange → Option GoErr → Outcome
after_build limit x (some e) = failed true (wrapped (str "could not build the request: ") e)
after_build limit x none = after_auth limit x x.authenticated

-- attempt, without its log lines and its dropping of a held token.
unfoldable pub attempt : ℕ → Exchange → Outcome
attempt limit x = after_build limit x x.built

-- What the loop meets: the outcome of each attempt, whether the context has ended before it, and
-- whether the sleep after it is cut short; and the error of the context in the end. An error
-- of the context is context.Canceled or context.DeadlineExceeded.
pub record World : Type 0 where
  pub outcome : ℕ → Outcome
  pub ended_before : ℕ → Bool
  pub interrupted : ℕ → Bool
  pub ended : Option GoErr
  pub is_context_error : GoErr → Bool

-- How the loop ends: with a body, or with the last error, the number of attempts made, and whether
-- an answer of the provider was final.
pub data Ending : Type 0 where
  done : Str → Ending
  stopped : Option GoErr → ℕ → Bool → Ending

-- The loop from attempt n on, with `left` attempts left; redact is the removal of credentials from
-- an error.
module _ (redact : GoErr → GoErr) (w : World) where
  abbrev pub after_failure : ℕ → ℕ → Bool → GoErr → (Option GoErr → ℕ → Ending) → Ending
  after_failure n left permanent e next =
      if permanent
      then stopped (some (redact e)) n true
      else if w.interrupted n && ltb 0 left
      then stopped (some (redact e)) n false
      else next (some (redact e)) n

  abbrev pub after_attempt : ℕ → ℕ → Outcome → (Option GoErr → ℕ → Ending) → Ending
  after_attempt n left (answered body) next = done body
  after_attempt n left (failed permanent e) next = after_failure n left permanent e next

  unfoldable pub try_from : ℕ → ℕ → Option GoErr → ℕ → Ending
  try_from zero n last made = stopped last made false
  try_from (suc left) n last made =
      let again : Option GoErr → ℕ → Ending = λ l m. try_from left (suc n) l m in
      if w.ended_before n then stopped last made false else after_attempt n left (w.outcome n) again

  abbrev word : ℕ → Str
  word made = if made == 1 then str " attempt" else str " attempts"

  abbrev unavailable : ℕ → GoErr → GoErr
  unavailable status e = new_coded_err status (str "NET_DOWNSTREAM_UNAVAILABLE") e

  abbrev after_attempts : Str → ℕ → Str
  after_attempts t made = t ++ (decimal made ++ word made)

  -- The error for a request that ended. Of two causes that Errorf wraps, the second is kept.
  abbrev request_ended : GoErr → Bool → Option GoErr → ℕ → GoErr
  request_ended ended own (some last) made = unavailable 504 (
      if own
      then wrapped
          (after_attempts (str "request ended after ") made
            ++ str ", before the provider answered: ")
          ended
      else wrapped
          (after_attempts (str "request ended after ") made
            ++ (str ": " ++ (text ended ++ str "; the provider's last answer: ")))
          last)
  request_ended ended own none made = unavailable 504 (
      wrapped
        (after_attempts (str "request ended after ") made ++ str ", before the provider answered: ")
        ended)

  abbrev not_answered : ℕ → Option GoErr → GoErr
  not_answered made none =
      unavailable 502
        (plain (after_attempts (str "provider did not answer after ") made ++ str ": %!w(<nil>)"))
  not_answered made (some e) =
      unavailable 502
        (wrapped (after_attempts (str "provider did not answer after ") made ++ str ": ") e)

  -- Whether the last error is of the context.
  abbrev is_own : Option GoErr → Bool
  is_own none = true
  is_own (some e) = w.is_context_error e

  abbrev pub report_stop : Option GoErr → Bool → Option GoErr → ℕ → Res Str
  report_stop (some ended) false last made = err (request_ended ended (is_own last) last made)
  report_stop (some ended) true last made = err (not_answered made last)
  report_stop none final last made = err (not_answered made last)

  abbrev pub reported : Ending → Res Str
  reported (done body) = ok body
  reported (stopped last made final) = report_stop w.ended final last made

  -- call, over an endpoint that could be built.
  unfoldable pub call : ℕ → Res Str
  call retry_max = reported (try_from (suc (budget_retries retry_max)) 1 none 0)
