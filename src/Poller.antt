-- ===== src/Poller.antt =====
-- scripts/atmcp_worker_poller.py: the worker that polls the inbox, runs the model on one directive at a
-- time, and tries again after a failure that is only transient. What the model does on each attempt,
-- what the server answers, the regular expressions and the amounts of money (floats) are parameters.
pub mod Retries
use atmcp.Base.{
  ℕ, zero, suc, ◌+◌, String, Bool, true, false, not, ◌&&◌, ◌||◌, Option, none, some, List, [], ◌∷◌,
  ◌++◌, ◌==◌, ltb, leb, eqb, if◌then◌else◌, truthy, coalesce, coalesce?, contains, prefix, map,
  is_some,
}
use Prim.Native.String.{◌++◌ as ◌<>◌}
use atmcp.Guard.Rules.{Regex, finds}

-- What the poller does with an amount of money.
pub record Money (C : Type 0) : Type 0 where
  pub add : C → C → C
  pub round : C → C
  pub is_positive : C → Bool
  pub reaches : C → C → Bool

-- The arguments of the command line that the loop reads; a budget of 0 is none.
pub record Args (C : Type 0) : Type 0 where
  pub resume_mode : Bool
  pub cost_budget : C
  pub token_budget : ℕ
  pub max_retries : ℕ

-- `_extract_usage`, as far as the loop adds it up.
pub record Usage (C : Type 0) : Type 0 where
  pub input_tokens : ℕ
  pub output_tokens : ℕ
  pub cost_usd : C

-- What `run_executor` returns.
pub record Run (C : Type 0) : Type 0 where
  pub ok : Bool
  pub result : String
  pub new_sid : Option String
  pub usage : Option (Usage C)

-- The JSON file of the worker.
pub record StateFile (C : Type 0) : Type 0 where
  pub session_id : Option String
  pub spent_usd : Option C
  pub spent_tokens : Option ℕ

-- The variables of `main`, and the file.
pub record Worker (C : Type 0) : Type 0 where
  pub session_id : Option String
  pub spent_usd : C
  pub spent_tokens : ℕ
  pub file : StateFile C

-- An attempt: the session that it was given, whether resuming was forced, and what came of it.
pub record Attempt (C : Type 0) : Type 0 where
  pub sid : Option String
  pub force_resume : Bool
  pub run : Run C

-- `_TRANSIENT_MARKERS`
abbrev pub transient_markers : List String
transient_markers =
    "overloaded" ∷ "overloaded_error" ∷ "rate limit" ∷ "rate_limit" ∷ "ratelimit"
    ∷ "too many requests" ∷ "timeout" ∷ "timed out" ∷ "deadline exceeded" ∷ "connection error"
    ∷ "connection reset" ∷ "connection refused" ∷ "econnreset" ∷ "econnrefused" ∷ "broken pipe"
    ∷ "remotedisconnected" ∷ "tls handshake" ∷ "getaddrinfo" ∷ "name resolution" ∷ "network"
    ∷ "fetch failed" ∷ "temporarily unavailable" ∷ "service unavailable" ∷ "try again"
    ∷ "please retry" ∷ "retry your request" ∷ []

abbrev pub any_in : List String → String → Bool
any_in [] text = false
any_in (m ∷ ms) text = contains m text || any_in ms text

-- `_TRANSIENT_STATUS`
abbrev pub transient_status : String
transient_status = "(?:http|https|status|code|error|err|api)\\b[^0-9A-Za-z]{0,12}(429|5\\d\\d)\\b"

unfoldable pub is_retriable : Regex → String → Bool
is_retriable re text =
    any_in transient_markers (re.lower text) || finds re transient_status true (re.lower text)

abbrev pub any_equal : String → List String → Bool
any_equal x [] = false
any_equal x (p ∷ ps) = p == x || any_equal x ps

abbrev pub same_sid : String → Option String → Bool
same_sid sid none = false
same_sid sid (some old) = sid == old

-- shlex.split of the template is `parts`.
unfoldable pub build_custom_cmd : List String → String → List String
build_custom_cmd parts prompt =
    if any_equal "{prompt}" parts
    then map (λ p. if p == "{prompt}" then prompt else p) parts
    else parts ++ prompt ∷ []

module _ {C : Type 0} (money : Money C) (args : Args C) where
  -- A configured budget is reached.
  unfoldable pub over_budget : C → ℕ → Bool
  over_budget spent_usd spent_tokens =
      (money.is_positive args.cost_budget && money.reaches spent_usd args.cost_budget)
      || (ltb 0 args.token_budget && leb args.token_budget spent_tokens)

  -- `save_session_id`
  abbrev pub save_session_id : Option String → StateFile C → StateFile C
  save_session_id none f = f
  save_session_id (some sid) f =
      if sid == "" || not args.resume_mode then f else record f { session_id = some sid }

  -- `if new_sid and new_sid != session_id`
  abbrev pub keep_session : Option String → Worker C → Worker C
  keep_session none w = w
  keep_session (some sid) w =
      if sid == "" || same_sid sid w.session_id
      then w
      else record w { session_id = some sid; file = save_session_id (some sid) w.file }

  -- `if usage: …`
  abbrev pub account : Option (Usage C) → Worker C → Worker C
  account none w = w
  account (some u) w =
      let usd = money.add w.spent_usd u.cost_usd in
      let tokens = w.spent_tokens + (u.input_tokens + u.output_tokens) in
      record w {
        spent_usd = usd;
        spent_tokens = tokens;
        file = record w.file { spent_usd = some (money.round usd); spent_tokens = some tokens };
      }

  abbrev pub after_run : Run C → Worker C → Worker C
  after_run r w = account r.usage (keep_session r.new_sid w)

  -- The end of the attempts: what is reported, the attempts, the newest first, and the worker.
  pub record Ended : Type 0 where
    pub ok : Bool
    pub result : String
    pub attempts : List (Attempt C)
    pub worker : Worker C

  -- `exec` is the model: the result of the attempt of the given number, in the given session.
  -- `none` means that the fuel ran out.
  module _ (re : Regex) (exec : ℕ → Option String → Bool → Run C) where
    abbrev pub attempt_with : ℕ → Option String → Worker C → Attempt C
    attempt_with n retry_sid w =
        let sid = if eqb n 0 then w.session_id else retry_sid in
        record { sid = sid; force_resume = ltb 0 n; run = exec n sid (ltb 0 n) }

    -- The test of the `break`.
    abbrev pub is_last : ℕ → Run C → Bool
    is_last n r = r.ok || (leb args.max_retries n || not (is_retriable re r.result))

    unfoldable pub try_again : ℕ → ℕ → Option String → List (Attempt C) → Worker C → Option Ended
    unfolding over_budget
    try_again zero n retry_sid past w = none
    try_again (suc fuel) n retry_sid past w =
        let a = attempt_with n retry_sid w in
        let w' = after_run a.run w in
        let rest =
          try_again fuel (n + 1) (coalesce? (truthy a.run.new_sid) retry_sid) (a ∷ past) w' in
        if is_last n a.run
        then some
            (record { ok = a.run.ok; result = a.run.result; attempts = a ∷ past; worker = w' })
        else if over_budget w'.spent_usd w'.spent_tokens
        then some (record {
          ok = a.run.ok;
          result = a.run.result <> "  [retry skipped: budget reached]";
          attempts = a ∷ past;
          worker = w';
        })
        else rest

    -- One directive: at most `max_retries` attempts after the first.
    unfoldable pub execute_directive : Worker C → Option Ended
    unfolding try_again
    execute_directive w = try_again (suc args.max_retries) 0 none [] w
