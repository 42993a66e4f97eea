-- ===== src/Host/Agent/Effects.antt =====
-- scripts/atmcp_workbench_host.py: what the agent loop does on the machine.
use atmcp.Base.{
  ℕ, ◌≤◌, String, ◌≡◌, refl, true, false, Option, none, some, List, [], ◌∷◌, ◌⊎◌, inl, inr, arith,
  Bool-cases, Option-cases, starts_with, ◌==◌,
}
use atmcp.Guard.Rules.{Regex}
use atmcp.Host.Gate.{Passed, guard_allows_lem, Cleared}
use atmcp.Host.Paths.{safe_path}
use atmcp.Host.Paths.Inside.{Inside, safe_path-Inside}
use atmcp.Host.Tools.{
  ToolArgs, Effect, ran, read_from, wrote_to, World, Tooled, after_gate, run_bash, read_file,
  write_file, run_tool,
}
use atmcp.Host.Agent.{
  Message, Setting, open_talk, Ran, ended, raised_in, Drive, drove, exception, driven_of,
  drive_openai,
}
use atmcp.Host.Agent.Loop.{run_steps-P, begun, Ended}

-- An effect, after those before it: a command was cleared by the guard when it ran, and a file is inside.
abbrev pub Permitted : Regex → World → String → Effect → List Effect → Type 0
Permitted re w base (ran cmd) before =
    Cleared re (w.verdict before cmd) (w.poll before) w.ask_timeout cmd
Permitted re w base (read_from path) before = Inside base path
Permitted re w base (wrote_to path content) before = Inside base path

abbrev pub AllPermitted : Regex → World → String → List Effect → Type 0
AllPermitted re w base [] = Unit
AllPermitted re w base (e ∷ before) = Permitted re w base e before × AllPermitted re w base before

module _ (re : Regex) (w : World) (base : String) where
  -- A tool that ends with a text, and only with permitted effects.
  abbrev Ends : Option Tooled → Type 0
  Ends r = (d : Tooled) × (r ≡ some d) × AllPermitted re w base d.effects

  gate-Ends :
      (cmd : String) (effects : List Effect) (p : Passed)
      → (p.0 ≡ false) ⊎ Cleared re (w.verdict effects cmd) (w.poll effects) w.ask_timeout cmd
      → AllPermitted re w base effects
      → AllPermitted re w base (after_gate w cmd effects p).effects
  gate-Ends cmd effects (true, reason) (inl shut) a = ground (arith, shut)
  gate-Ends cmd effects (true, reason) (inr cleared) a = (cleared, a)
  gate-Ends cmd effects (false, reason) why a = a

  run_bash-Ends :
      (cmd : String) (effects : List Effect)
      → AllPermitted re w base effects
      → Ends (run_bash re w cmd effects)
  unfolding run_bash
  run_bash-Ends cmd effects a =
      let (p, ends, why) =
        guard_allows_lem re (w.verdict effects cmd) (w.poll effects) w.ask_timeout cmd in
      (after_gate w cmd effects p, rw (run_bash, ends) refl, gate-Ends cmd effects p why a)

  module _ (absolute : starts_with "/" base ≡ true) where
    file-Ends :
        (rel : String) (effects : List Effect) (use_file : Option String → Tooled)
        → ((path : String)
            → Inside base path
            → AllPermitted re w base (use_file (some path)).effects)
        → AllPermitted re w base (use_file none).effects
        → Ends (some (use_file (safe_path base rel)))
    file-Ends rel effects use_file inside outside = elim (Option-cases (safe_path base rel)) [
      | inl e ↦ (use_file (safe_path base rel), refl, rw e outside)
      | inr (path, e) ↦ (
        use_file (safe_path base rel),
        refl,
        rw e (inside path (safe_path-Inside base rel path absolute e)),
      )
    ]

    pub run_tool-Ends :
        (name : String) (args : ToolArgs) (effects : List Effect)
        → AllPermitted re w base effects
        → Ends (run_tool re w base name args effects)
    unfolding run_tool
    run_tool-Ends name args effects a =
        let rel = args.path in
        elim (Bool-cases (name == "run_bash")) [
          | inl e ↦ rw e (run_bash-Ends args.command effects a)
          | inr not_bash ↦ elim (Bool-cases (name == "read_file")) [
            | inl e ↦
                rw (not_bash, e)
                  (file-Ends rel effects (λ o. read_file w o effects) (λ path i. (i, a)) a)
            | inr not_read ↦ elim (Bool-cases (name == "write_file")) [
              | inl e ↦
                  rw (not_bash, not_read, e)
                    (file-Ends rel effects (λ o. write_file w args o effects) (λ path i. (i, a)) a)
              | inr other ↦ rw (not_bash, not_read, other) (_, refl, a)
            ]
          ]
        ]

-- What was done, and in how many rounds.
abbrev pub effects_of : Drive → List Effect
effects_of (drove d) = d.looped.talk.effects
effects_of (exception steps t) = t.effects

abbrev pub rounds_of : Drive → ℕ
rounds_of (drove d) = d.looped.steps
rounds_of (exception steps t) = steps

-- With an absolute worktree, the agent loop always ends, with an answer or with an exception, after at most
-- `max_steps` rounds, whatever the model says. Either way every command that it ran was cleared by the
-- guard at that time, and every file that it read or wrote is at the path of the worktree, or at that
-- path, a slash and more, and there is no `..` between the slashes of its path.
pub drive_openai-Permitted :
    (re : Regex) (env : Setting) (max_steps : ℕ) (loaded : List Message) (prompt : String)
    → starts_with "/" env.base ≡ true
    → (d : Drive) × (drive_openai re env max_steps loaded prompt ≡ some d)
      × (rounds_of d ≤ max_steps)
      × AllPermitted re env.world env.base (effects_of d)
unfolding drive_openai
drive_openai-Permitted re env max_steps loaded prompt absolute =
    let kept = AllPermitted re env.world env.base in
    let (r, ends, a, bound) =
      run_steps-P re env (λ calls t. kept t.effects) (λ r sent t a. a)
        (λ call calls args t a.
          run_tool-Ends re env.world env.base absolute call.name args t.effects a)
        (λ text sent t a. a) max_steps 0 (open_talk loaded prompt) tt in
    (driven_of r, rw (drive_openai, ends) refl, rounds r (omega (arith, bound)), effects r a)
  where
    rounds : (r : Ran) → begun r ≤ max_steps → rounds_of (driven_of r) ≤ max_steps
    rounds (ended l) h = omega (arith, h)
    rounds (raised_in steps t) h = omega (arith, h)

    effects :
        (r : Ran)
        → Ended env (λ calls t. AllPermitted re env.world env.base t.effects) r
        → AllPermitted re env.world env.base (effects_of (driven_of r))
    effects (ended l) a = a
    effects (raised_in steps t) (call, calls, bad, a) = a
