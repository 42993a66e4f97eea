-- ===== src/Host/Agent/Loop.antt =====
-- scripts/atmcp_workbench_host.py, `_drive_openai`: the loop ends within its steps, with what every
-- message and every tool call keep.
use atmcp.Base.{
  ℕ, zero, suc, ◌+◌, ◌≤◌, String, ◌≡◌, refl, none, some, Option-cases, List, [], ◌∷◌, arith, inl,
  inr, ◌⊎◌, Bool-cases, true, subst,
}
use atmcp.Guard.Rules.{Regex}
use atmcp.Host.Sse.{Slot, ChatRound, openai_stream, round_output}
use atmcp.Host.Tools.{ToolArgs, Tooled, run_tool}
use atmcp.Host.Agent.{
  Reply, call_failed, streamed, Setting, Talk, args_of, answered, heard, stopped, broken,
  all_answered, broke_off, Ran, ended, raised_in, answer_calls, run_steps, is_empty,
}

-- `P calls t`: the talk `t`, in which `calls` are to be answered yet.
module _ (env : Setting) (P : List Slot → Talk → Type 0) where
  -- Where an exception left the talk: before a call whose arguments cannot be read.
  abbrev pub Broken : Talk → Type 0
  Broken t = (call : Slot) × (calls : List Slot) × (args_of env call ≡ none) × P (call ∷ calls) t

  -- How the loop ended: with P, or by an exception.
  abbrev pub Ended : Ran → Type 0
  Ended (ended l) = P [] l.talk
  Ended (raised_in steps t) = Broken t

-- The rounds that were begun.
abbrev pub begun : Ran → ℕ
begun (ended l) = l.steps
begun (raised_in steps t) = steps

module _ (re : Regex) (env : Setting) (P : List Slot → Talk → Type 0)
    (hears : (r : ChatRound) (sent : List String) (t : Talk)
      → P [] t
      → P r.tool_calls (heard r sent t))
    (answers : (call : Slot) (calls : List Slot) (a : ToolArgs) (t : Talk)
      → P (call ∷ calls) t
      → (d : Tooled) × (run_tool re env.world env.base call.name a t.effects ≡ some d)
        × P calls (answered call a d t))
    (says : (text : String) (sent : List String) (t : Talk)
      → P [] t
      → P [] (record t { final_text = text; sent = sent })) where
  abbrev Answered : List Slot → Talk → Type 0
  Answered calls t =
      ((t' : Talk) × (answer_calls re env calls t ≡ some (all_answered t')) × P [] t')
      ⊎ ((t' : Talk) × (answer_calls re env calls t ≡ some (broke_off t')) × Broken env P t')

  answer_calls-P : (calls : List Slot) (t : Talk) → P calls t → Answered calls t
  unfolding answer_calls
  answer_calls-P [] t p = inl (t, refl, p)
  answer_calls-P (call ∷ calls) t p = elim (Option-cases (args_of env call)) [
    | inl bad ↦ inr (t, rw (answer_calls, bad) refl, (call, calls, bad, p))
    | inr (a, read) ↦
        let (d, ends, next) = answers call calls a t p in
        rw (answer_calls, read)
          (rw (answer_calls, ends) (answer_calls-P calls (answered call a d t) next))
  ]

  reply-cases :
      (r : Reply)
      → ((lines : _) × (e : String) × (r ≡ call_failed lines e))
        ⊎ ((lines : _) × (r ≡ streamed lines))
  reply-cases (call_failed lines e) = inl (lines, e, refl)
  reply-cases (streamed lines) = inr (lines, refl)

  empty-nil : (cs : List Slot) → is_empty cs ≡ true → cs ≡ []
  empty-nil [] e = refl
  empty-nil (c ∷ cs) e = ground (arith, e)

  -- The loop ends, within the steps that are left, and keeps P.
  pub run_steps-P :
      (left step : ℕ) (t : Talk)
      → P [] t
      → (r : Ran) × (run_steps re env left step t ≡ some r)
        × Ended env P r
        × (begun r ≤ step + left)
  unfolding run_steps
  run_steps-P zero step t p = (ended (stopped step t), refl, says _ t.sent t p, omega arith)
  run_steps-P (suc left) step t p = elim (reply-cases (env.model step t.msgs)) [
    | inl (lines, e, failed) ↦ (
      ended (broken step (round_output lines) e t),
      rw (run_steps, failed) refl,
      says _ _ t p,
      omega arith,
    )
    | inr (lines, came) ↦
        let r = openai_stream lines in
        let t' = heard r (round_output lines) t in
        let p' = hears r (round_output lines) t p in
        elim (Bool-cases (is_empty r.tool_calls)) [
          | inl last ↦ (
            ended (record { ok = true; steps = suc step; talk = t' }),
            rw (run_steps, came, last) refl,
            subst (λ cs. P cs t') (empty-nil r.tool_calls last) p',
            omega arith,
          )
          | inr more ↦ elim (answer_calls-P r.tool_calls t' p') [
            | inl (t'', ends, p'') ↦
                let (q, stops, kept, bound) = run_steps-P left (suc step) t'' p'' in
                (q, rw (run_steps, came, more, ends) stops, kept, omega arith)
            | inr (t'', ends, off) ↦
                (raised_in (suc step) t'', rw (run_steps, came, more, ends) refl, off, omega arith)
          ]
        ]
  ]
