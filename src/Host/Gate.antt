-- ===== src/Host/Gate.antt =====
-- The gate of the host: a command runs if the guard of the server allows it, if a human approves it in
-- time, or, with the server out of reach, if the local deny-list does not match. Times are seconds.
use atmcp.Base.{
  ℕ, zero, suc, ◌+◌, ◌≤◌, ◌<◌, String, ◌≡◌, refl, Bool, true, false, ◌||◌, Option, none, some, List,
  [], ◌∷◌, arith, Bool-cases, inl, inr, ◌⊎◌, ltb, ◌∙◌, if◌then◌else◌,
}
use native.Mathlib.Numerals.{add-one}
use atmcp.Schema.{Decision, allow, deny, ask, RequestStatus, pending, allowed, denied, Clock}
use atmcp.Server.{Server, Answer, replied, raised}
use atmcp.Guard.{Asked, Verdict, check, team_rules}
use atmcp.Guard.Rules.{Regex, finds, decide}
use atmcp.Guard.Decides.{forbidden, check_lem, Audited}

-- `_LOCAL_DENY`, searched without regard to case.
abbrev pub local_patterns : List String
local_patterns =
    "\\brm\\s+-[a-z]*[rf][a-z]*\\s+(?:-[a-z]+\\s+)*(?:/|~|\\$HOME)(?:\\s|/|\\*|$)"
    ∷ "\\brm\\s+-[a-z]*[rf][a-z]*\\s+(?:-[a-z]+\\s+)*[/~]?\\*"
    ∷ ":\\(\\)\\s*\\{\\s*:\\s*\\|\\s*:?\\s*&\\s*\\}\\s*;\\s*:" ∷ "\\bmkfs"
    ∷ "\\bdd\\b[^\\n]*\\bof=/dev/" ∷ ">\\s*/dev/(sd|nvme|disk|hd)"
    ∷ "\\b(curl|wget)\\b[^\\n|]*\\|\\s*(sudo\\s+)?(sh|bash|zsh)\\b" ∷ "(^|\\s|;|&|\\|)sudo\\s"
    ∷ "\\b(shutdown|reboot|halt|poweroff)\\b"
    ∷ "(\\.ssh/|\\.aws/credentials|id_rsa|id_ed25519|authorized_keys)" ∷ []

abbrev pub any_found : Regex → List String → String → Bool
any_found re [] cmd = false
any_found re (p ∷ ps) cmd = finds re p true cmd || any_found re ps cmd

unfoldable pub local_guard_deny : Regex → String → Bool
local_guard_deny re cmd = any_found re local_patterns cmd

-- Whether the command may run, and why.
abbrev pub Passed : Type 0
Passed = Bool × Option String

-- Polls every 3 seconds; `poll t` is the status that the poll at `t` gets, `none` without an answer.
-- The result is `none` if the fuel runs out.
unfoldable pub await_human : ℕ → (ℕ → Option RequestStatus) → ℕ → ℕ → Option Passed
await_human zero poll ask_timeout waited = none
await_human (suc fuel) poll ask_timeout waited =
    let rest = await_human fuel poll ask_timeout (waited + 3) in
    if ltb waited ask_timeout
    then elim (poll (waited + 3)) [
      | some allowed ↦ some (true, some "approved by human")
      | some denied ↦ some (false, some "denied by human")
      | some pending ↦ rest
      | none ↦ rest
    ]
    else some (false, some "approval timed out")

abbrev pub ask_human : (ℕ → Option RequestStatus) → ℕ → Option ℕ → Option Passed
ask_human poll ask_timeout none = some (false, some "ask without a request id")
ask_human poll ask_timeout (some zero) = some (false, some "ask without a request id")
ask_human poll ask_timeout (some (suc id)) = await_human (ask_timeout + 1) poll ask_timeout 0

abbrev pub by_decision :
    (ℕ → Option RequestStatus) → ℕ → Decision → Option String → Option ℕ → Option Passed
by_decision poll ask_timeout allow reason id = some (true, reason)
by_decision poll ask_timeout deny reason id = some (false, reason)
by_decision poll ask_timeout ask reason id = ask_human poll ask_timeout id

-- `verdict` is the answer of the server, `none` if it cannot be reached.
unfoldable pub guard_allows :
    Regex → Option Verdict → (ℕ → Option RequestStatus) → ℕ → String → Option Passed
unfolding local_guard_deny await_human
guard_allows re none poll ask_timeout cmd =
    if local_guard_deny re cmd
    then some (false, some "blocked by local deny-list (guard offline)")
    else some (true, none)
guard_allows re (some v) poll ask_timeout cmd =
    by_decision poll ask_timeout v.ruling.decision v.ruling.reason v.request_id

-- A poll in time saw an approval.
pub record Approved (poll : ℕ → Option RequestStatus) (ask_timeout : ℕ) : Type 0 where
  pub at : ℕ
  pub seen : poll at ≡ some allowed
  pub in_time : at < ask_timeout + 3

poll-cases :
    (o : Option RequestStatus)
    → (o ≡ some allowed) ⊎ ((o ≡ some denied) ⊎ ((o ≡ some pending) ⊎ (o ≡ none)))
poll-cases none = inr (inr (inr refl))
poll-cases (some allowed) = inl refl
poll-cases (some denied) = inr (inl refl)
poll-cases (some pending) = inr (inr (inl refl))

-- The rounds end, and an approval is the only way through.
await_human_lem :
    (fuel : ℕ) (poll : ℕ → Option RequestStatus) (ask_timeout waited : ℕ)
    → ask_timeout ≤ fuel + waited
    → (p : Passed) × (await_human (suc fuel) poll ask_timeout waited ≡ some p)
      × ((p.0 ≡ false) ⊎ Approved poll ask_timeout)
unfolding await_human
await_human_lem zero poll ask_timeout waited h =
    let late : ltb waited ask_timeout ≡ false = ground arith in
    ((false, some "approval timed out"), rw late refl, inl refl)
await_human_lem (suc fuel) poll ask_timeout waited h =
    let rest = await_human_lem fuel poll ask_timeout (waited + 3) (omega arith) in
    elim (Bool-cases (ltb waited ask_timeout)) [
      | inr late ↦ ((false, some "approval timed out"), rw late refl, inl refl)
      | inl early ↦ elim (poll-cases (poll (waited + 3))) [
        | inl e ↦ (
          (true, some "approved by human"),
          rw (early, e) refl,
          inr (record { at = waited + 3; seen = e; in_time = ground arith }),
        )
        | inr (inl e) ↦ ((false, some "denied by human"), rw (early, e) refl, inl refl)
        | inr (inr (inl e)) ↦ rw (early, e) rest
        | inr (inr (inr e)) ↦ rw (early, e) rest
      ]
    ]

-- What `guard_allows` lets through: by the server's word, by a human, or offline.
abbrev pub Cleared : Regex → Option Verdict → (ℕ → Option RequestStatus) → ℕ → String → Type 0
Cleared re none poll ask_timeout cmd = local_guard_deny re cmd ≡ false
Cleared re (some v) poll ask_timeout cmd =
    (v.ruling.decision ≡ allow) ⊎ ((v.ruling.decision ≡ ask) × Approved poll ask_timeout)

cleared-by :
    (poll : ℕ → Option RequestStatus) (ask_timeout : ℕ) (d : Decision) (reason : Option String)
    (id : Option ℕ)
    → (p : Passed) × (by_decision poll ask_timeout d reason id ≡ some p)
      × ((p.0 ≡ false) ⊎ ((d ≡ allow) ⊎ ((d ≡ ask) × Approved poll ask_timeout)))
cleared-by poll ask_timeout allow reason id = (_, refl, inr (inl refl))
cleared-by poll ask_timeout deny reason id = (_, refl, inl refl)
cleared-by poll ask_timeout ask reason none = (_, refl, inl refl)
cleared-by poll ask_timeout ask reason (some zero) = (_, refl, inl refl)
cleared-by poll ask_timeout ask reason (some (suc id)) =
    let (p, ends, why) = await_human_lem ask_timeout poll ask_timeout 0 (omega arith) in
    (p, rw add-one ends, elim why [ inl shut ↦ inl shut | inr seen ↦ inr (inr (refl, seen)) ])

-- `guard_allows` always ends with an answer, whatever the polls see. It lets a command through only if
-- the server allowed it, or asked for approval and a poll within the time saw that a human gave it,
-- or cannot be reached and the local list does not match.
pub guard_allows_lem :
    (re : Regex) (verdict : Option Verdict) (poll : ℕ → Option RequestStatus) (ask_timeout : ℕ)
    (cmd : String)
    → (p : Passed) × (guard_allows re verdict poll ask_timeout cmd ≡ some p)
      × ((p.0 ≡ false) ⊎ Cleared re verdict poll ask_timeout cmd)
unfolding guard_allows
guard_allows_lem re none poll ask_timeout cmd = elim (Bool-cases (local_guard_deny re cmd)) [
  | inl e ↦ ((false, some "blocked by local deny-list (guard offline)"), rw e refl, inl refl)
  | inr e ↦ ((true, none), rw e refl, inr e)
]
guard_allows_lem re (some v) poll ask_timeout cmd =
    cleared-by poll ask_timeout v.ruling.decision v.ruling.reason v.request_id

abbrev pub verdict_in : Answer Verdict → Option Verdict
verdict_in (replied v) = some v
verdict_in (raised e) = none

-- A command that a deny rule of the team or the built-in list matches is checked by the server, written
-- to the audit, and not let through by the host, whatever the polls would see.
pub forbidden-blocked :
    (re : Regex) (clk : Clock) (team : String) (q : Asked) (s : Server)
    (poll : ℕ → Option RequestStatus) (ask_timeout : ℕ)
    → forbidden re (team_rules team s.db) q.command ≡ true
    → let after = check re clk team q s.db s in
      let v = decide re (team_rules team s.db) q.command in
      (guard_allows re (verdict_in after.0) poll ask_timeout q.command ≡ some (false, v.reason))
      × Audited clk team q v s.db after.1.db
unfolding guard_allows
forbidden-blocked re clk team q s poll ask_timeout bad =
    let (judge, (id, answer, followed, audited)) = check_lem re clk team q s.db s in
    let denied_ : (decide re (team_rules team s.db) q.command).decision ≡ deny =
      judge ∙ rw bad refl in
    (rw (answer, denied_) refl, audited)
