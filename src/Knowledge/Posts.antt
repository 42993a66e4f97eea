-- ===== src/Knowledge/Posts.antt =====
-- services/knowledge.py: what a post makes of the content that it brings.
use atmcp.Base.{
  ℕ, suc, ◌+◌, String, ◌≡◌, refl, ap, sym, ◌∙◌, subst, Bool, true, ◌||◌, Option, none, some, List,
  [], ◌∷◌, ◌==◌, arith, Bool-cases, inl, inr, eq_iff, if◌then◌else◌, is_some,
}
use atmcp.Base.Table.{fetch_one, select, exists_row, insert}
use atmcp.Base.Table.Laws.{select-insert_in, fetch_one-update, fetch_one-insert, fetch_one_sound}
use atmcp.Schema.{Contribution, Knowledge, Caller, Clock}
use atmcp.Wire.{knowledge_posted}
use atmcp.Db.{Db, TxState, Tried, Turn, done, result}
use atmcp.Events.{append}
use atmcp.Idempotency.{idempotent}
use atmcp.Server.{Server, replied, no_redis}
use atmcp.Server.Frame.{serve-done, start}
use atmcp.Knowledge.{
  Outside, Post, is_known, find_known, is_contribution, count_authors, contributors, add_object,
  add_contribution, known_row, seen_again, write_known, publish, contribute, post_tx, content_id_of,
  normal_post, post_knowledge,
}

abbrev pub wrote_by : String → Contribution → Bool
wrote_by agent k = k.author_agent == agent

exists_row-insert :
    {R : Type 0} (p : R → Bool) (r : R) (rs : List R)
    → exists_row p (insert r rs) ≡ (exists_row p rs || p r)
exists_row-insert p r [] = ground arith
exists_row-insert p r (x ∷ rs) = ground (arith, exists_row-insert p r rs)

-- One more row counts if its author is new.
count_authors-insert :
    (r : Contribution) (ks : List Contribution)
    → count_authors (insert r ks) ≡ (
        if exists_row (wrote_by r.author_agent) ks
        then count_authors ks
        else suc (count_authors ks))
count_authors-insert r [] = refl
count_authors-insert r (k ∷ ks) = rw (exists_row-insert (wrote_by k.author_agent) r ks) (
    ground (
      arith,
      count_authors-insert r ks,
      eq_iff r.author_agent k.author_agent,
      eq_iff k.author_agent r.author_agent,
    ))

-- Whether the agent is among the authors of the content.
abbrev pub contributed : String → String → String → Db → Bool
contributed team cid agent db =
    exists_row (wrote_by agent) (select (is_contribution team cid) db.knowledge_contributions)

-- What the team's row is after a post, from the row before it.
abbrev pub Current : Caller → ℕ → Option Knowledge → Option Knowledge → Type 0
Current c n before after =
    (k : Knowledge) × (after ≡ some k)
    × (k.present ≡ true)
    × (k.contributor_count ≡ n)
    × (k.first_author ≡ elim before [ none ↦ c.agent_id | some old ↦ old.first_author ])

module _ (clk : Clock) (c : Caller) (cid : String) (p : Post) where
  write_known-Current :
      (n eid : ℕ) (existing : Option Knowledge) (rows : List Knowledge)
      → fetch_one (is_known c.team_id cid) rows ≡ existing
      → Current c n existing
          (fetch_one (is_known c.team_id cid) (write_known clk c cid p n eid existing rows))
  unfolding write_known known_row
  write_known-Current n eid none rows e =
      let mine : is_known c.team_id cid (known_row clk c cid p n eid) ≡ true =
        ground (arith, eq_iff c.team_id c.team_id, eq_iff cid cid) in
      (
        known_row clk c cid p n eid,
        rw (fetch_one-insert (is_known c.team_id cid) (known_row clk c cid p n eid) rows e)
            (rw mine refl),
        refl,
        refl,
        refl,
      )
  write_known-Current n eid (some k) rows e =
      let f = seen_again clk.now n eid in
      let mine : is_known c.team_id cid k ≡ true =
        fetch_one_sound (is_known c.team_id cid) rows e in
      let read =
        fetch_one-update (is_known c.team_id cid) (is_known c.team_id cid) f (λ x. refl) rows in
      (f k, rw (read, e, mine) refl, refl, refl, refl)

  -- The row that the post adds to the contributions.
  abbrev row_of : ℕ → Contribution
  row_of eid = record {
    team_id = c.team_id;
    content_id = cid;
    author_agent = c.agent_id;
    task_id = p.task_id;
    created_at = clk.now;
    event_id = eid;
  }

  add_object-others :
      (db : Db)
      → ((add_object cid p db).knowledge_current ≡ db.knowledge_current)
        × ((add_object cid p db).knowledge_contributions ≡ db.knowledge_contributions)
        × ((add_object cid p db).last_event_id ≡ db.last_event_id)
  unfolding add_object
  add_object-others db =
      elim (Bool-cases (exists_row (λ o. o.content_id == cid) db.knowledge_objects)) [
        | inl e ↦ rw e (refl, refl, refl)
        | inr e ↦ rw e (refl, refl, refl)
      ]

  -- What the transaction leaves, from the fields of the database that it reads.
  abbrev Posted : Tried Turn → ℕ → List Contribution → List Knowledge → Type 0
  Posted r last contributions current =
      (t : TxState) × (r
        ≡ done
            (result (
              knowledge_posted cid (last + 1) (is_some (fetch_one (is_known c.team_id cid) current))
                (contributors c.team_id cid t.db)))
            t)
      × (t.db.knowledge_contributions ≡ insert (row_of (last + 1)) contributions)
      × (t.db.knowledge_current
          ≡ write_known clk c cid p (contributors c.team_id cid t.db) (last + 1)
              (fetch_one (is_known c.team_id cid) current) current)

  contribute-Posted :
      (t : TxState)
      → Posted
          (contribute clk c cid p t)
          t.db.last_event_id
          t.db.knowledge_contributions
          t.db.knowledge_current
  unfolding contribute append add_contribution publish
  contribute-Posted t = (_, refl, refl, refl)

  post_tx-Posted :
      (db : Db)
      → Posted
          (post_tx clk c cid p (start db))
          db.last_event_id
          db.knowledge_contributions
          db.knowledge_current
  unfolding post_tx
  post_tx-Posted db =
      let (kept, contributions, counter) = add_object-others db in
      let r = post_tx clk c cid p (start db) in
      let after = add_object cid p db in
      subst (λ current. Posted r db.last_event_id db.knowledge_contributions current) kept
        (subst (λ ks. Posted r db.last_event_id ks after.knowledge_current) contributions
          (subst (λ last. Posted r last after.knowledge_contributions after.knowledge_current)
            counter (contribute-Posted (start after))))

-- With no idempotency key, a post is always answered: with the id of its content, with whether the
-- team knew that content already, and with the number of different agents that posted it, which
-- grows by one exactly if the agent is new to the content. The content is then present for the team
-- under its id, with that number, and its first author stays who it was.
pub post_knowledge_lem :
    (out : Outside) (clk : Clock) (c : Caller) (title body : String) (tags : List String)
    (task_id : Option String) (s : Server)
    → let cid = content_id_of out (normal_post out title body tags task_id) in
      let before = find_known c.team_id cid s.db in
      let n =
        (if contributed c.team_id cid c.agent_id s.db
          then contributors c.team_id cid s.db
          else suc (contributors c.team_id cid s.db)) in
      let after = post_knowledge out clk c title body tags task_id none s in
      (after.0 ≡ replied (knowledge_posted cid (s.db.last_event_id + 1) (is_some before) n))
      × Current c n before (find_known c.team_id cid after.1.db)
unfolding post_knowledge idempotent contributors
post_knowledge_lem out clk c title body tags task_id s =
    let p = normal_post out title body tags task_id in
    let cid = content_id_of out p in
    let (t, ends, contributions, current) = post_tx-Posted clk c cid p s.db in
    let row = row_of clk c cid p (s.db.last_event_id + 1) in
    let mine : is_contribution c.team_id cid row ≡ true =
      ground (arith, eq_iff c.team_id c.team_id, eq_iff cid cid) in
    let counted =
      ap (λ ks. count_authors (select (is_contribution c.team_id cid) ks)) contributions
      ∙ ap count_authors
          (select-insert_in (is_contribution c.team_id cid) row s.db.knowledge_contributions mine)
      ∙ count_authors-insert row
          (select (is_contribution c.team_id cid) s.db.knowledge_contributions) in
    let ended = serve-done (post_tx clk c cid p) no_redis s ends in
    let before = find_known c.team_id cid s.db in
    let m = contributors c.team_id cid t.db in
    let written =
      write_known-Current clk c cid p m (s.db.last_event_id + 1) before s.db.knowledge_current
        refl in
    let there : Current c m before (find_known c.team_id cid t.db) =
      subst (λ rows. Current c m before (fetch_one (is_known c.team_id cid) rows)) (sym current)
        written in
    (
      rw (ended, counted) refl,
      rw ended (subst (λ n. Current c n before (find_known c.team_id cid t.db)) counted there),
    )
