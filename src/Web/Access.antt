-- ===== src/Web/Access.antt =====
-- web.py: who gets past the join gates.
use atmcp.Base.{
  String, Bool, ◌==◌, ◌≡◌, refl, true, false, not, ◌&&◌, Option, none, some, ◌⊎◌, inl, inr, truthy,
  arith, sym, ◌∙◌, Bool-cases, Option-cases, eq_iff, if◌then◌else◌,
}
use mathlib.Core.Bool.{false≢true}
use atmcp.Schema.{Team}
use atmcp.Db.{Db}
use atmcp.Server.{Server}
use atmcp.Web.{
  Env, Http, http_error, Op, Call, token_fits, team_by_name, create_session_op, message_op,
  rename_op, archive_op, get_memory_op, set_memory_op, executor_op, guard_check_op,
  guard_request_op, resolve_op, add_rule_op, delete_rule_op, heartbeat_op, output_op, usage_op,
  inbox_op, console_command_op, claim_op, report_op,
}
use atmcp.Web.Gate.{act, handle, header_token, any_token, is_refused, require_join, inline_join}

-- The operations that do not look for a token in their body: those without a body, the heartbeat and
-- the output.
abbrev pub reads_body : Op → Bool
reads_body (get_memory_op session_id) = false
reads_body (guard_request_op request_id) = false
reads_body (delete_rule_op rule_id) = false
reads_body (heartbeat_op display_name capabilities_json r) = false
reads_body (output_op agent_ref text directive_id session_id) = false
reads_body (inbox_op agent_ref wait_ms limit include_running) = false
reads_body (console_command_op console_name command) = true
reads_body (create_session_op agent title driver created_by) = true
reads_body (message_op session_id text sender priority) = true
reads_body (rename_op session_id title) = true
reads_body (archive_op session_id) = true
reads_body (set_memory_op session_id msgs) = true
reads_body (executor_op session_id cli_session_id worktree) = true
reads_body (guard_check_op command agent tool session_id) = true
reads_body (resolve_op request_id approve by) = true
reads_body (add_rule_op kind pattern pattern_type reason) = true
reads_body (usage_op agent_ref r) = true
reads_body (claim_op directive_id agent) = true
reads_body (report_op directive_id agent status result_summary output) = true

-- The token that the call presents for the operation: that of the headers, else that of the body where
-- the operation reads it.
abbrev pub presented : Env → Call → Op → Option String
presented env call op = if reads_body op then any_token env call else header_token env call

-- The team of that name is there, and the token is one of it: not empty, and hashed to the team's hash,
-- which is not empty either.
pub record Holder (env : Env) (call : Call) (presented_token : Option String) (db : Db)
    : Type 0 where
  pub team : Team
  pub named : team_by_name call.team_name db ≡ some team
  pub token : String
  pub carried : truthy presented_token ≡ some token
  pub hashed : env.hash_token token ≡ team.join_token_hash
  pub has_hash : (team.join_token_hash == "") ≡ false

-- The call carries a token of the team, where the operation reads it.
abbrev pub Admitted : Env → Call → Op → Db → Type 0
Admitted env call op db = Holder env call (presented env call op) db

token_fits_lem :
    (hash_token : String → String) (token : Option String) (h : String)
    → token_fits hash_token token h ≡ true
    → (t : String) × (truthy token ≡ some t) × (hash_token t ≡ h) × ((h == "") ≡ false)
unfolding token_fits
token_fits_lem hash_token token h fits = elim (Option-cases (truthy token)) [
  | inl e ↦ ground (arith, (rw (token_fits, e) at fits))
  | inr (t, e) ↦
      let both : (not (h == "") && hash_token t == h) ≡ true = rw (token_fits, e) at fits in
      (t, e, (eq_iff (hash_token t) h).0 (ground (arith, both)), ground (arith, both))
]

token_fits-holder :
    (hash_token : String → String) (token : Option String) (h t : String)
    → truthy token ≡ some t
    → hash_token t ≡ h
    → (h == "") ≡ false
    → token_fits hash_token token h ≡ true
unfolding token_fits
token_fits-holder hash_token token h t e hashed has_hash =
    rw (token_fits, e) (ground (arith, has_hash, (eq_iff (hash_token t) h).1 hashed))

is_refused_lem :
    (hash_token : String → String) (token : Option String) (h : String)
    → is_refused hash_token token h ≡ not (token_fits hash_token token h)
unfolding is_refused token_fits
is_refused_lem hash_token token h = elim (Option-cases (truthy token)) [
  | inl e ↦ rw (is_refused, token_fits, e) refl
  | inr (t, e) ↦ rw (is_refused, token_fits, e) (ground arith)
]

-- The answer of a call behind a gate, on every branch.
abbrev pub Gated :
    (env : Env) (call : Call) (token : Option String) (s : Server) (go : String → Http × Server)
    → Http × Server
    → Type 0
Gated env call token s go answer =
    ((a : Holder env call token s.db) × (answer ≡ go a.team.team_id))
    ⊎ (((team_by_name call.team_name s.db ≡ none) × (answer ≡ (http_error 404 "unknown team", s)))
        ⊎ ((t : Team) × (team_by_name call.team_name s.db ≡ some t)
            × (¬ Holder env call token s.db)
            × (answer ≡ (http_error 401 "invalid join token", s))))

require_join_lem :
    (env : Env) (call : Call) (token : Option String) (s : Server) (go : String → Http × Server)
    → Gated env call token s go (require_join env call token s (λ t. go t.team_id))
require_join_lem env call token s go = elim (Option-cases (team_by_name call.team_name s.db)) [
  | inl e ↦ inr (inl (e, rw e refl))
  | inr (t, e) ↦ elim (Bool-cases (token_fits env.hash_token token t.join_token_hash)) [
    | inl fits ↦
        let (tok, carried, hashed, has_hash) =
          token_fits_lem env.hash_token token t.join_token_hash fits in
        inl (
          record {
            team = t;
            named = e;
            token = tok;
            carried = carried;
            hashed = hashed;
            has_hash = has_hash;
          },
          rw (e, fits) refl,
        )
    | inr wrong ↦ inr (
        inr (
          t,
          e,
          λ a.
              let same : some t ≡ some a.team = sym e ∙ a.named in
              let other : token_fits env.hash_token token a.team.join_token_hash ≡ true =
                token_fits-holder env.hash_token token a.team.join_token_hash a.token a.carried
                  a.hashed a.has_hash in
              let here : t ≡ a.team = ground (arith, same) in
              false≢true (sym wrong ∙ (rw here other)),
          rw (e, wrong) refl,
        ))
  ]
]

inline_join-require_join :
    (env : Env) (call : Call) (token : Option String) (s : Server) (go : Team → Http × Server)
    → inline_join env call token s go ≡ require_join env call token s go
inline_join-require_join env call token s go =
    elim (Option-cases (team_by_name call.team_name s.db)) [
      | inl e ↦ rw e refl
      | inr (t, e) ↦ elim (Bool-cases (token_fits env.hash_token token t.join_token_hash)) [
        | inl fits ↦ rw (e, is_refused_lem env.hash_token token t.join_token_hash, fits) refl
        | inr wrong ↦ rw (e, is_refused_lem env.hash_token token t.join_token_hash, wrong) refl
      ]
    ]

inline_join_lem :
    (env : Env) (call : Call) (token : Option String) (s : Server) (go : String → Http × Server)
    → Gated env call token s go (inline_join env call token s (λ t. go t.team_id))
inline_join_lem env call token s go =
    rw (inline_join-require_join env call token s (λ t. go t.team_id))
      (require_join_lem env call token s go)

-- Every operation of the workers and of the workbench that the model has stands behind a gate of its
-- own: those that change data, the inbox, the memory of a thread and a guard request. A call that
-- presents the join token of the team that its path names, in a place that the operation reads, is
-- handled for that team and for no other. If no team has that name the answer is 404, and if the token
-- is not one of the team it is 401; in both cases nothing changes, whatever the arguments are. The
-- views of the dashboard, its lists of sessions, output, guard events, guard requests and rules
-- included, are no such operations.
pub handle_lem :
    (env : Env) (call : Call) (op : Op) (s : Server)
    → Gated env call
        (presented env call op)
        s
        (λ team_id. act env team_id op s)
        (handle env call op s)
unfolding handle act
handle_lem env call (console_command_op console_name command) s = inline_join_lem env call _ s _
handle_lem env call (create_session_op agent title driver created_by) s =
    require_join_lem env call _ s _
handle_lem env call (message_op session_id text sender priority) s = require_join_lem env call _ s _
handle_lem env call (rename_op session_id title) s = require_join_lem env call _ s _
handle_lem env call (archive_op session_id) s = require_join_lem env call _ s _
handle_lem env call (get_memory_op session_id) s = require_join_lem env call _ s _
handle_lem env call (set_memory_op session_id msgs) s = require_join_lem env call _ s _
handle_lem env call (executor_op session_id cli_session_id worktree) s =
    require_join_lem env call _ s _
handle_lem env call (guard_check_op command agent tool session_id) s =
    require_join_lem env call _ s _
handle_lem env call (guard_request_op request_id) s = require_join_lem env call _ s _
handle_lem env call (resolve_op request_id approve by) s = require_join_lem env call _ s _
handle_lem env call (add_rule_op kind pattern pattern_type reason) s =
    require_join_lem env call _ s _
handle_lem env call (delete_rule_op rule_id) s = require_join_lem env call _ s _
handle_lem env call (heartbeat_op display_name capabilities_json r) s =
    inline_join_lem env call _ s _
handle_lem env call (output_op agent_ref text directive_id session_id) s =
    inline_join_lem env call _ s _
handle_lem env call (usage_op agent_ref r) s = require_join_lem env call _ s _
handle_lem env call (inbox_op agent_ref wait_ms limit include_running) s =
    require_join_lem env call _ s _
handle_lem env call (claim_op directive_id agent) s = require_join_lem env call _ s _
handle_lem env call (report_op directive_id agent status result_summary output) s =
    require_join_lem env call _ s _
