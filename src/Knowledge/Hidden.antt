-- ===== src/Knowledge/Hidden.antt =====
-- services/knowledge.py: what is retracted is not found any more.
use atmcp.Base.{
  ℕ, ◌+◌, String, ◌≡◌, refl, Bool, false, ◌&&◌, Option, none, some, List, [], ◌∷◌, ◌==◌, arith,
  Bool-cases, inl, inr, All, All-append, All-take, ℤ, strip,
}
use atmcp.Base.Table.{select, update}
use atmcp.Base.Table.Laws.{All-select}
use atmcp.Base.Table.Order.{All-order_by}
use atmcp.Schema.{Knowledge, KnowledgeText, Caller, Clock}
use atmcp.Wire.{Reply}
use atmcp.Db.{Db, TxState, done, result}
use atmcp.Idempotency.{idempotent}
use atmcp.Server.{Server, replied, no_redis}
use atmcp.Server.Frame.{serve-done, start}
use atmcp.Knowledge.{
  Outside, is_known, find_known, retracted_row, hide, retract_tx, retract_knowledge,
}
use atmcp.Knowledge.Search.{
  is_visible, later_seen, join_known, by_recency, by_text, by_query, with_tags, search_knowledge,
}

module _ (team cid : String) where
  -- The content is not present for the team.
  abbrev Off : Knowledge → Type 0
  Off k = (is_known team cid k && k.present) ≡ false

  -- A row is of other content.
  abbrev pub IsOther : Knowledge → Type 0
  IsOther k = (k.content_id == cid) ≡ false

  retracted-Off :
      (now eid : ℕ) (rows : List Knowledge)
      → All Off (update (is_known team cid) (retracted_row now eid) rows)
  retracted-Off now eid [] = tt
  retracted-Off now eid (k ∷ ks) = elim (Bool-cases (is_known team cid k)) [
    | inl e ↦ rw e (ground arith, retracted-Off now eid ks)
    | inr e ↦ rw e (ground arith, retracted-Off now eid ks)
  ]

  visible-IsOther :
      (since : ℕ) (p : Knowledge → Bool) (rows : List Knowledge)
      → All Off rows
      → All IsOther (select (λ k. is_visible team since k && p k) rows)
  visible-IsOther since p [] a = tt
  visible-IsOther since p (k ∷ ks) a = elim (Bool-cases (is_visible team since k && p k)) [
    | inl e ↦ rw e (ground (arith, a.0), visible-IsOther since p ks a.1)
    | inr e ↦ rw e (visible-IsOther since p ks a.1)
  ]

  recency-IsOther :
      (since : ℕ) (p : Knowledge → Bool) (rows : List Knowledge)
      → All Off rows
      → All IsOther (by_recency team since p rows)
  unfolding by_recency
  recency-IsOther since p rows a =
      All-order_by IsOther later_seen _ (visible-IsOther since p rows a)

  join-IsOther :
      (since : ℕ) (rows : List Knowledge) (hits : List KnowledgeText)
      → All Off rows
      → All IsOther (join_known team since rows hits)
  join-IsOther since rows [] a = tt
  join-IsOther since rows (f ∷ fs) a = elim (Bool-cases (f.team_id == team)) [
    | inl e ↦ rw e (
        All-append IsOther _ _ (visible-IsOther since (λ k. k.content_id == f.content_id) rows a)
          (join-IsOther since rows fs a))
    | inr e ↦ rw e (join-IsOther since rows fs a)
  ]

  module _ (out : Outside) (since : ℕ) where
    text-IsOther :
        (query : String) (hits : Option (List KnowledgeText)) (rows : List Knowledge)
        → All Off rows
        → All IsOther (by_text out team since query hits rows)
    text-IsOther query (some hits) rows a = join-IsOther since rows hits a
    text-IsOther query none rows a = recency-IsOther since _ rows a

    query-IsOther :
        (query : Option String) (db : Db)
        → All Off db.knowledge_current
        → All IsOther (by_query out team since query db)
    query-IsOther none db a = recency-IsOther since _ db.knowledge_current a
    query-IsOther (some query) db a = elim (Bool-cases (strip query == "")) [
      | inl e ↦ rw e (recency-IsOther since _ db.knowledge_current a)
      | inr e ↦
          rw e (text-IsOther query (out.full_text query db.knowledge_fts) db.knowledge_current a)
    ]

    with_tags-IsOther :
        (tags : List String) (rows : List Knowledge)
        → All IsOther rows
        → All IsOther (with_tags out tags rows)
    with_tags-IsOther [] rows a = a
    with_tags-IsOther (t ∷ ts) rows a = All-select _ IsOther rows a

module _ (clk : Clock) (c : Caller) (cid : String) (db : Db) {k : Knowledge}
    (known : find_known c.team_id cid db ≡ some k) where
  retract_tx-done :
      (t : TxState) × (retract_tx clk c cid (start db)
        ≡ done (result (Reply.knowledge_retracted cid (db.last_event_id + 1))) t)
      × (t.db.knowledge_current
          ≡ update
              (is_known c.team_id cid)
              (retracted_row clk.now (db.last_event_id + 1))
              db.knowledge_current)
  unfolding retract_tx
  retract_tx-done = let (t, ends, rows) = hidden (start db) in (t, rw known ends, rows)
    where
      hidden :
          (t : TxState)
          → (t' : TxState) × (hide clk c cid t
              ≡ done (result (Reply.knowledge_retracted cid (t.db.last_event_id + 1))) t')
            × (t'.db.knowledge_current
                ≡ update
                    (is_known c.team_id cid)
                    (retracted_row clk.now (t.db.last_event_id + 1))
                    t.db.knowledge_current)
      hidden t = (_, refl, refl)

-- A retraction, without an idempotency key, of content that the team knows is answered, and on the
-- database that it leaves no search of the team finds the content: with a query or without, by the
-- full-text index or by the scan, whatever the index and LIKE match, and whatever the tags and the
-- limits are. (A later post of the content shows it again.)
pub retract-search :
    (out : Outside) (clk : Clock) (c d : Caller) (cid : String) (query : Option String)
    (tags : List String) (since : ℕ) (limit : ℤ) (s : Server) (k : Knowledge)
    → find_known c.team_id cid s.db ≡ some k
    → d.team_id ≡ c.team_id
    → let after = retract_knowledge clk c cid none s in
      (after.0 ≡ replied (Reply.knowledge_retracted cid (s.db.last_event_id + 1)))
      × All (IsOther c.team_id cid) (search_knowledge out d query tags since limit after.1.db)
unfolding retract_knowledge idempotent search_knowledge
retract-search out clk c d cid query tags since limit s k known same =
    let (t, ends, rows) = retract_tx-done clk c cid s.db known in
    let ended = serve-done (retract_tx clk c cid) no_redis s ends in
    let off : All (Off c.team_id cid) t.db.knowledge_current =
      rw rows
        (retracted-Off c.team_id cid clk.now (s.db.last_event_id + 1) s.db.knowledge_current) in
    (
      rw ended refl,
      rw (ended, same)
          (with_tags-IsOther c.team_id cid out since tags _ (
            All-take (IsOther c.team_id cid) _ _
              (query-IsOther c.team_id cid out since query t.db off))),
    )
