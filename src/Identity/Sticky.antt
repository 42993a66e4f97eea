-- ===== src/Identity/Sticky.antt =====
-- `resolve` of session.py: a session that is resolved stays bound.
use atmcp.Base.{
  String, ◌≡◌, refl, Bool, Option, none, some, List, [], ◌∷◌, arith, Bool-cases, inl, inr, ◌==◌,
  eq_iff, truthy, subst, ◌∙◌,
}
use atmcp.Base.Table.{fetch_one, delete}
use atmcp.Base.Table.Laws.{fetch_one-insert}
use atmcp.Schema.{Team, Agent, Caller, Clock, Settings}
use atmcp.Redis.{Binding, get_session}
use atmcp.Presence.{is_agent}
use atmcp.Server.{Server, Answer, replied, raised}
use atmcp.Identity.{has_sid, bind}
use atmcp.Identity.Resolve.{
  find_bound, rebind, rebind_found, rehydrate, answer_bound, auto_join, with_token, or_token,
  or_rehydrate, resolve,
}

fetch_one-delete : {R : Type 0} (p : R → Bool) (rs : List R) → fetch_one p (delete p rs) ≡ none
fetch_one-delete p [] = refl
fetch_one-delete p (r ∷ rs) = elim (Bool-cases (p r)) [
  | inl e ↦ rw e (fetch_one-delete p rs)
  | inr e ↦ rw e (rw e (fetch_one-delete p rs))
]

find_bound-bind :
    (sid team agent name : String) (s : Server)
    → find_bound sid (bind sid team agent name s)
      ≡ some (record { team_id = team; agent_id = agent; display_name = name; session_id = sid })
unfolding bind
find_bound-bind sid team agent name s =
    rw
      (fetch_one-insert (has_sid sid) _ (delete (has_sid sid) s.bound)
        (fetch_one-delete (has_sid sid) s.bound))
      (ground (arith, eq_iff sid sid))

-- An answer that names a caller leaves that caller bound.
abbrev Bound : String → Answer Caller × Server → Type 0
Bound sid (replied c, s) = find_bound sid s ≡ some c
Bound sid (raised e, s) = Unit

abbrev FoundBound : String → Option (Caller × Server) → Type 0
FoundBound sid none = Unit
FoundBound sid (some (c, s)) = find_bound sid s ≡ some c

answer-Bound :
    (sid : String) (o : Option Caller) (s : Server)
    → find_bound sid s ≡ o
    → Bound sid (answer_bound o s)
answer-Bound sid none s e = tt
answer-Bound sid (some c) s e = e

module _ (cfg : Settings) (hash_token : String → String) (clk : Clock) (sid new_id : String)
    (token name : Option String) (s : Server) where
  auto_join-Bound :
      (t called : String) (team : Option Team)
      → Bound sid (auto_join cfg hash_token clk sid new_id t called team s)
  unfolding auto_join
  auto_join-Bound t called none = tt
  auto_join-Bound t called (some team) = answer-Bound sid _ _ refl

  with_token-Bound :
      (asked : Option String) → Bound sid (with_token cfg hash_token clk sid new_id asked name s)
  unfolding with_token
  with_token-Bound none = tt
  with_token-Bound (some t) =
      auto_join-Bound t _ (fetch_one (λ x. x.join_token_hash == hash_token t) s.db.teams)

  rebind-Bound : (b : Binding) (a : Option Agent) → FoundBound sid (rebind sid b a s)
  rebind-Bound b none = tt
  rebind-Bound b (some a) = find_bound-bind sid b.team_id b.agent_id a.display_name s

  rebind_found-Bound : (b : Option Binding) → FoundBound sid (rebind_found sid b s)
  rebind_found-Bound none = tt
  rebind_found-Bound (some b) =
      rebind-Bound b (fetch_one (is_agent b.team_id b.agent_id) s.db.agents)

  or_token-Bound :
      (found : Option (Caller × Server))
      → FoundBound sid found
      → Bound sid (or_token cfg hash_token clk sid new_id token name found s)
  or_token-Bound none h = with_token-Bound (truthy token)
  or_token-Bound (some (c, s')) h = h

  or_rehydrate-Bound :
      (known : Option Caller)
      → find_bound sid s ≡ known
      → Bound sid (or_rehydrate cfg hash_token clk sid new_id token name known s)
  unfolding rehydrate
  or_rehydrate-Bound (some c) e = e
  or_rehydrate-Bound none e =
      or_token-Bound (rehydrate clk.now sid s)
        (rebind_found-Bound (get_session clk.now sid s.redis))

-- Let a request of a session be resolved to a caller, by the bound session, by the mirror or by an
-- automatic join, and let anything happen to the server that leaves the binding of that session as it is
-- (leaving the team or joining again in the session does not). Then a further request of the session is
-- resolved to the same caller and changes nothing, at whatever time and with whatever token and name.
pub resolve_again :
    (cfg : Settings) (hash_token : String → String) (clk clk' : Clock) (new_id new_id' sid : String)
    (session token name token' name' : Option String) (s s' later : Server) (c : Caller)
    → truthy session ≡ some sid
    → resolve cfg hash_token clk new_id session token name s ≡ (replied c, s')
    → find_bound sid later ≡ find_bound sid s'
    → resolve cfg hash_token clk' new_id' session token' name' later ≡ (replied c, later)
unfolding resolve
resolve_again cfg hash_token clk clk' new_id new_id' sid session token name token' name' s s' later
      c k e still =
    let first : or_rehydrate cfg hash_token clk sid new_id token name (find_bound sid s) s
        ≡ (replied c, s') =
      rw k at e in
    let bound : find_bound sid s' ≡ some c =
      subst (Bound sid) first
        (or_rehydrate-Bound cfg hash_token clk sid new_id token name s (find_bound sid s) refl) in
    rw k (rw (still ∙ bound) refl)
