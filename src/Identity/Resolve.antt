-- ===== src/Identity/Resolve.antt =====
-- `resolve` of session.py: who calls. The session id, the token and the name are what the headers of
-- the request carry; reading them is a call of the MCP library.
use atmcp.Base.{ℕ, String, Option, none, some, [], ◌==◌, truthy, coalesce, prefix}
use Prim.Native.String.{◌++◌}
use atmcp.Base.Table.{fetch_one}
use atmcp.Schema.{Team, Agent, Caller, Clock, Settings}
use atmcp.Redis.{Binding, get_session}
use atmcp.Db.{not_joined}
use atmcp.Server.{Server, Answer, replied, raised}
use atmcp.Presence.{is_agent}
use atmcp.Identity.{has_sid, bind, join_team}

-- _sessions.get(sid)
abbrev pub find_bound : String → Server → Option Caller
find_bound sid s = fetch_one (has_sid sid) s.bound

abbrev pub caller_of : String → Binding → Agent → Caller
caller_of sid b a = record {
  team_id = b.team_id;
  agent_id = b.agent_id;
  display_name = a.display_name;
  session_id = sid;
}

abbrev pub rebind : String → Binding → Option Agent → Server → Option (Caller × Server)
rebind sid b none s = none
rebind sid b (some a) s = some (caller_of sid b a, bind sid b.team_id b.agent_id a.display_name s)

abbrev pub rebind_found : String → Option Binding → Server → Option (Caller × Server)
rebind_found sid none s = none
rebind_found sid (some b) s = rebind sid b (fetch_one (is_agent b.team_id b.agent_id) s.db.agents) s

-- From the Redis mirror and the database.
unfoldable pub rehydrate : ℕ → String → Server → Option (Caller × Server)
rehydrate now sid s = rebind_found sid (get_session now sid s.redis) s

abbrev pub answer_bound : Option Caller → Server → Answer Caller × Server
answer_bound none s = (raised not_joined, s)
answer_bound (some c) s = (replied c, s)

-- The join of a request without a session: a failure is passed over.
unfoldable pub auto_join :
    Settings
    → (String → String)
    → Clock
    → String
    → String
    → String
    → String
    → Option Team
    → Server
    → Answer Caller × Server
auto_join cfg hash_token clk sid new_id token name none s = (raised not_joined, s)
auto_join cfg hash_token clk sid new_id token name (some team) s =
    let s' =
      (join_team cfg hash_token clk sid team.name token new_id
        (record {
          display_name = name;
          capabilities_json = "[]";
          capabilities = [];
          agent_id = none;
        })
        s).1 in
    answer_bound (find_bound sid s') s'

unfoldable pub with_token :
    Settings
    → (String → String)
    → Clock
    → String
    → String
    → Option String
    → Option String
    → Server
    → Answer Caller × Server
unfolding auto_join
with_token cfg hash_token clk sid new_id none name s = (raised not_joined, s)
with_token cfg hash_token clk sid new_id (some token) name s =
    auto_join cfg hash_token clk sid new_id token
      (coalesce (truthy name) ("agent-" ++ prefix 8 sid))
      (fetch_one (λ t. t.join_token_hash == hash_token token) s.db.teams) s

abbrev pub or_token :
    Settings
    → (String → String)
    → Clock
    → String
    → String
    → Option String
    → Option String
    → Option (Caller × Server)
    → Server
    → Answer Caller × Server
or_token cfg hash_token clk sid new_id token name (some (c, s')) s = (replied c, s')
or_token cfg hash_token clk sid new_id token name none s =
    with_token cfg hash_token clk sid new_id (truthy token) name s

abbrev pub or_rehydrate :
    Settings
    → (String → String)
    → Clock
    → String
    → String
    → Option String
    → Option String
    → Option Caller
    → Server
    → Answer Caller × Server
or_rehydrate cfg hash_token clk sid new_id token name (some c) s = (replied c, s)
or_rehydrate cfg hash_token clk sid new_id token name none s =
    or_token cfg hash_token clk sid new_id token name (rehydrate clk.now sid s) s

abbrev pub resolve_sid :
    Settings
    → (String → String)
    → Clock
    → String
    → Option String
    → Option String
    → Option String
    → Server
    → Answer Caller × Server
resolve_sid cfg hash_token clk new_id none token name s = (raised not_joined, s)
resolve_sid cfg hash_token clk new_id (some sid) token name s =
    or_rehydrate cfg hash_token clk sid new_id token name (find_bound sid s) s

unfoldable pub resolve :
    Settings
    → (String → String)
    → Clock
    → String
    → Option String
    → Option String
    → Option String
    → Server
    → Answer Caller × Server
resolve cfg hash_token clk new_id sid token name s =
    resolve_sid cfg hash_token clk new_id (truthy sid) token name s
