-- ===== src/Poller/Retries.antt =====
-- The attempts at one directive: they end, they are repeated for transient failures only, and every one
-- of them is paid for.
use atmcp.Base.{
  ℕ, zero, suc, ◌+◌, ◌≤◌, ◌<◌, String, ◌≡◌, refl, ap, ◌∙◌, Bool, true, false, ◌||◌, Option, none,
  some, List, [], ◌∷◌, arith, Bool-cases, inl, inr, ltb, eqb, length, All, truthy, coalesce?, ◌==◌,
}
use Prim.Native.String.{◌++◌ as ◌<>◌}
use atmcp.Guard.Rules.{Regex}
use atmcp.Poller.{
  Money, Args, Usage, Run, Worker, Attempt, Ended, is_retriable, over_budget, account, keep_session,
  after_run, attempt_with, is_last, try_again, execute_directive, same_sid,
}

module _ {C : Type 0} where
  abbrev pub tokens_of : Option (Usage C) → ℕ
  tokens_of none = 0
  tokens_of (some u) = u.input_tokens + u.output_tokens

  abbrev pub total_tokens : List (Attempt C) → ℕ
  total_tokens [] = 0
  total_tokens (a ∷ as_) = tokens_of a.run.usage + total_tokens as_

  -- The session that the attempts so far leave for the next one.
  abbrev pub left_session : List (Attempt C) → Option String
  left_session [] = none
  left_session (a ∷ as_) = coalesce? (truthy a.run.new_sid) (left_session as_)

  -- Each attempt after the first resumes what the ones before it left.
  abbrev pub Resumes : List (Attempt C) → Type 0
  Resumes [] = Unit
  Resumes (a ∷ []) = a.force_resume ≡ false
  Resumes (a ∷ b ∷ as_) =
      (a.sid ≡ left_session (b ∷ as_)) × (a.force_resume ≡ true) × Resumes (b ∷ as_)

  abbrev pub Transient : Regex → Attempt C → Type 0
  Transient re a = (a.run.ok ≡ false) × (is_retriable re a.run.result ≡ true)

  module _ (money : Money C) (args : Args C) (re : Regex) where
    -- How the attempts ended, for a worker that had spent `base` tokens.
    pub record Settled (base : ℕ) (e : Ended money args) : Type 0 where
      pub last : Attempt C
      pub older : List (Attempt C)
      pub listed : e.attempts ≡ last ∷ older
      pub ok : e.ok ≡ last.run.ok
      pub transient : All (Transient re) older
      pub few : length older ≤ args.max_retries
      pub resumes : Resumes (last ∷ older)
      pub paid : e.worker.spent_tokens ≡ base + total_tokens (last ∷ older)

    account-tokens :
        (u : Option (Usage C)) (w : Worker C)
        → (account money args u w).spent_tokens ≡ w.spent_tokens + tokens_of u
    account-tokens none w = omega arith
    account-tokens (some u) w = refl

    keep_session-tokens :
        (sid : Option String) (w : Worker C)
        → (keep_session money args sid w).spent_tokens ≡ w.spent_tokens
    keep_session-tokens none w = refl
    keep_session-tokens (some sid) w = elim (Bool-cases (sid == "" || same_sid sid w.session_id)) [
      | inl e ↦ rw e refl
      | inr e ↦ rw e refl
    ]

    after_run-tokens :
        (r : Run C) (w : Worker C)
        → (after_run money args r w).spent_tokens ≡ w.spent_tokens + tokens_of r.usage
    after_run-tokens r w =
        account-tokens r.usage (keep_session money args r.new_sid w)
        ∙ ap (λ (n : ℕ). n + tokens_of r.usage) (keep_session-tokens r.new_sid w)

    module _ (exec : ℕ → Option String → Bool → Run C) where
      attempt-Resumes :
          (n : ℕ) (retry_sid : Option String) (past : List (Attempt C)) (w : Worker C)
          → n ≡ length past
          → retry_sid ≡ left_session past
          → Resumes past
          → Resumes (attempt_with money args re exec n retry_sid w ∷ past)
      attempt-Resumes n retry_sid [] w hn hr c = rw hn refl
      attempt-Resumes n retry_sid (b ∷ past) w hn hr c =
          let later : eqb n 0 ≡ false = ground arith in
          let forced : ltb 0 n ≡ true = ground arith in rw later (hr, forced, c)

      -- A test that does not end the attempts says that the failure was transient and a retry is left.
      not_last :
          (n : ℕ) (r : Run C)
          → is_last money args re exec n r ≡ false
          → (r.ok ≡ false) × (is_retriable re r.result ≡ true) × (n < args.max_retries)
      not_last n r h = ground arith

      try_again_lem :
          (base fuel n : ℕ) (retry_sid : Option String) (past : List (Attempt C)) (w : Worker C)
          → args.max_retries < fuel + n
          → n ≤ args.max_retries
          → n ≡ length past
          → retry_sid ≡ left_session past
          → All (Transient re) past
          → Resumes past
          → w.spent_tokens ≡ base + total_tokens past
          → (e : Ended money args) × (try_again money args re exec fuel n retry_sid past w ≡ some e)
            × Settled base e
      unfolding try_again
      try_again_lem base zero n retry_sid past w h le hn hr tr re_ paid = absurd (omega arith)
      try_again_lem base (suc fuel) n retry_sid past w h le hn hr tr re_ paid =
          let a = attempt_with money args re exec n retry_sid w in
          let w' = after_run money args a.run w in
          let paid' : w'.spent_tokens ≡ base + total_tokens (a ∷ past) =
            omega (arith, after_run-tokens a.run w) in
          let resumes = attempt-Resumes n retry_sid past w hn hr re_ in
          elim (Bool-cases (is_last money args re exec n a.run)) [
            | inl e ↦ (
              record { ok = a.run.ok; result = a.run.result; attempts = a ∷ past; worker = w' },
              rw e refl,
              record {
                last = a;
                older = past;
                listed = refl;
                ok = refl;
                transient = tr;
                few = omega arith;
                resumes = resumes;
                paid = paid';
              },
            )
            | inr e ↦
                let (failed, transient, more) = not_last n a.run e in
                elim (Bool-cases (over_budget money args w'.spent_usd w'.spent_tokens)) [
                  | inl k ↦ (
                    record {
                      ok = a.run.ok;
                      result = a.run.result <> "  [retry skipped: budget reached]";
                      attempts = a ∷ past;
                      worker = w';
                    },
                    rw (e, k) refl,
                    record {
                      last = a;
                      older = past;
                      listed = refl;
                      ok = refl;
                      transient = tr;
                      few = omega arith;
                      resumes = resumes;
                      paid = paid';
                    },
                  )
                  | inr k ↦
                      rw (e, k)
                        (try_again_lem base fuel (n + 1)
                          (coalesce? (truthy a.run.new_sid) retry_sid) (a ∷ past) w' (omega arith)
                          (omega arith) (omega arith) (rw hr refl) ((failed, transient), tr) resumes
                          paid')
                ]
          ]

      -- Whatever the model does on each attempt: the attempts at a directive end, after at most
      -- `max_retries` of them beyond the first; each one but the last was a transient failure, and
      -- what is reported is the success or failure of the last; each one after the first resumes
      -- the session that the ones before it left; and the tokens of all of them are added up.
      pub execute_directive_lem :
          (w : Worker C)
          → (e : Ended money args) × (execute_directive money args re exec w ≡ some e)
            × Settled w.spent_tokens e
      unfolding execute_directive
      execute_directive_lem w =
          try_again_lem w.spent_tokens (suc args.max_retries) 0 none [] w (omega arith)
            (omega arith) refl refl tt tt (omega arith)
