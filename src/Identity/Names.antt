-- ===== src/Identity/Names.antt =====
-- services/identity.py: joining keeps the names of a team unique.
use atmcp.Base.{
  ℕ, String, ◌≡◌, refl, Bool, false, not, Option, none, some, List, arith, Bool-cases, inl, inr,
  ◌==◌, ◌&&◌, ◌||◌, eq_iff, both_eq, is_some, coalesce, truthy, All,
}
use atmcp.Base.Table.{fetch_one, update, insert}
use atmcp.Base.Table.Laws.{AtMostOne, AtMostOne-update, AtMostOne-insert, fetch_one_sound}
use atmcp.Base.Table.Rename.{AtMostOne-renamed, AtMostOne-away, only-one}
use atmcp.Schema.{Team, Agent, Clock, Settings}
use atmcp.Db.{Db, TxState}
use atmcp.Db.Keeps.{After, After-bind}
use atmcp.Server.{Server, Answer, replied, raised, serve}
use atmcp.Presence.{is_agent, is_named}
use atmcp.Identity.{
  Join, rejoin_row, agent_row, joining, owned_by_other, enter_row, join_tx, Joined, bind_joined,
  bind, enter_team, join_team, mirror_join,
}
use atmcp.Server.Frame.{serve-Keeps}

-- UNIQUE(team_id, display_name) and the primary key of the agents table.
pub record AgentsOk (agents : List Agent) : Type 0 where
  pub named : (team_id name : String) → AtMostOne (is_named team_id name) agents
  pub keyed : (team_id agent_id : String) → AtMostOne (is_agent team_id agent_id) agents

abbrev pub NamesOk : Db → Type 0
NamesOk db = AgentsOk db.agents

no_some : (o : Option Agent) → is_some o ≡ false → o ≡ none
no_some none h = refl
no_some (some a) h = absurd (ground arith)

or-false : (a b : Bool) → (a || b) ≡ false → (a ≡ false) × (b ≡ false)
or-false a b h = ground arith

module _ (now : ℕ) (sid team : String) (j : Join) where
  -- The name is free, or it is the agent's own.
  own_name :
      (aid : String) (agents : List Agent)
      → AgentsOk agents
      → owned_by_other aid (fetch_one (is_named team j.display_name) agents) ≡ false
      → All (λ r. is_agent team aid r ≡ false → is_named team j.display_name r ≡ false) agents
  own_name aid agents ok own =
      only-one (is_named team j.display_name) (is_agent team aid) (λ r. r) agents
        (ok.named team j.display_name)
        (λ r e.
          let named =
            both_eq r.team_id r.display_name team j.display_name
              (fetch_one_sound (is_named team j.display_name) agents e) in
          let mine : not (r.agent_id == aid) ≡ false = rw e at own in
          let here : r.team_id ≡ team = named.0 in ground (arith, eq_iff r.team_id team))

  rejoin-AgentsOk :
      (aid : String) (agents : List Agent)
      → AgentsOk agents
      → owned_by_other aid (fetch_one (is_named team j.display_name) agents) ≡ false
      → AgentsOk (update (is_agent team aid) (rejoin_row now sid j) agents)
  unfolding rejoin_row
  rejoin-AgentsOk aid agents ok own = record {
    keyed = λ t a.
        AtMostOne-update (is_agent t a) (is_agent team aid) (rejoin_row now sid j) (λ r. refl)
          agents (ok.keyed t a);
    named = λ t n. elim (Bool-cases (team == t && j.display_name == n)) [
      | inl e ↦
          let k = both_eq team j.display_name t n e in
          rw (← k.0, ← k.1)
            (AtMostOne-renamed (is_named team j.display_name) (is_agent team aid)
              (rejoin_row now sid j) agents (ok.keyed team aid) (own_name aid agents ok own))
      | inr e ↦
          AtMostOne-away (is_named t n) (is_agent team aid) (rejoin_row now sid j)
            (λ r h. let k = both_eq r.team_id r.agent_id team aid h in rw k.0 e) agents
            (ok.named t n)
    ];
  }

  enter-AgentsOk :
      (aid : String) (agents : List Agent)
      → AgentsOk agents
      → (is_some (fetch_one (is_agent team aid) agents)
          || is_some (fetch_one (is_named team j.display_name) agents))
        ≡ false
      → AgentsOk (insert (agent_row now sid team aid j) agents)
  unfolding agent_row
  enter-AgentsOk aid agents ok free = record {
    keyed = λ t a. AtMostOne-insert (is_agent t a) _ agents (ok.keyed t a) (λ e.
        let k = both_eq team aid t a e in rw (← k.0, ← k.1) (no_some _ (or-false _ _ free).0));
    named = λ t n. AtMostOne-insert (is_named t n) _ agents (ok.named t n) (λ e.
        let k = both_eq team j.display_name t n e in
        rw (← k.0, ← k.1) (no_some _ (or-false _ _ free).1));
  }

  enter_row-AgentsOk :
      (new_id : String) (existing : Option Agent) (t : TxState)
      → NamesOk t.db
      → After NamesOk (
          enter_row now sid team new_id j existing
            (fetch_one (is_named team j.display_name) t.db.agents)
            t)
  unfolding enter_row
  enter_row-AgentsOk new_id (some a) t ok =
      elim (Bool-cases
        (owned_by_other a.agent_id (fetch_one (is_named team j.display_name) t.db.agents))) [
          | inl taken ↦ rw (taken, After) tt
          | inr own ↦ rw (own, After) (rejoin-AgentsOk a.agent_id t.db.agents ok own)
        ]
  enter_row-AgentsOk new_id none t ok =
      elim (Bool-cases (is_some (fetch_one (is_named team j.display_name) t.db.agents))) [
        | inl taken ↦ rw (taken, After) tt
        | inr free ↦
            let aid = coalesce (truthy j.agent_id) new_id in
            rw free
              (elim (Bool-cases (
                is_some (fetch_one (is_agent team aid) t.db.agents)
                || is_some (fetch_one (is_named team j.display_name) t.db.agents))) [
                  | inl used ↦ rw (used, After) tt
                  | inr unused ↦ rw (unused, After) (enter-AgentsOk aid t.db.agents ok unused)
                ])
      ]

join_tx-AgentsOk :
    (clk : Clock) (sid team new_id : String) (j : Join) (t : TxState)
    → NamesOk t.db
    → After NamesOk (join_tx clk sid team new_id j t)
unfolding join_tx
join_tx-AgentsOk clk sid team new_id j t ok =
    After-bind NamesOk
      (enter_row clk.now sid team new_id j (joining team j t.db)
        (fetch_one (is_named team j.display_name) t.db.agents) t)
      _ (enter_row-AgentsOk clk.now sid team j new_id (joining team j t.db) t ok)
      (λ entered t' k. k)

bind_joined-db : (sid : String) (r : Answer Joined × Server) → (bind_joined sid r).1.db ≡ r.1.db
unfolding bind
bind_joined-db sid (replied a, s) = refl
bind_joined-db sid (raised e, s) = refl

enter_team-AgentsOk :
    (cfg : Settings) (hash_token : String → String) (clk : Clock) (sid token new_id : String)
    (j : Join) (row : Option Team) (s : Server)
    → NamesOk s.db
    → NamesOk (enter_team cfg hash_token clk sid token new_id j row s).1.db
unfolding enter_team
enter_team-AgentsOk cfg hash_token clk sid token new_id j none s ok = ok
enter_team-AgentsOk cfg hash_token clk sid token new_id j (some team) s ok =
    elim (Bool-cases (hash_token token == team.join_token_hash)) [
      | inr bad ↦ rw bad ok
      | inl good ↦ rw good (
          rw
            (bind_joined-db sid
              (serve (join_tx clk sid team.team_id new_id j) (mirror_join cfg clk sid) s))
            (serve-Keeps NamesOk (join_tx clk sid team.team_id new_id j) (mirror_join cfg clk sid) s
              (record { at = join_tx-AgentsOk clk sid team.team_id new_id j }) ok))
    ]

-- `join_team`, for a new agent or a returning one, with an id or a name, refused or not, keeps what
-- schema.sql declares: no two agents of a team have the same name, and none the same id.
pub join_team-AgentsOk :
    (cfg : Settings) (hash_token : String → String) (clk : Clock) (sid team token new_id : String)
    (j : Join) (s : Server)
    → AgentsOk s.db.agents
    → AgentsOk (join_team cfg hash_token clk sid team token new_id j s).1.db.agents
unfolding join_team
join_team-AgentsOk cfg hash_token clk sid team token new_id j s ok =
    enter_team-AgentsOk cfg hash_token clk sid token new_id j _ s ok
