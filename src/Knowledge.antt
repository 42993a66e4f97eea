-- ===== src/Knowledge.antt =====
-- services/knowledge.py and canonical.py: what the agents of a team found out, addressed by its content.
-- sha256 over the JSON text, the letters' lower case, and what SQLite's full-text index and LIKE match
-- are not part of the repository, and are parameters.
pub mod Search
pub mod Posts
pub mod Hidden
use atmcp.Base.{
  is_before, ℕ, suc, ◌+◌, String, Bool, true, false, not, ◌&&◌, ◌||◌, Option, none, some, List, [],
  ◌∷◌, ◌++◌, ◌==◌, ltb, if◌then◌else◌, truthy, strip, take, map, ℤ, is_some,
}
use Prim.Native.String.{len, compare, ◌++◌ as ◌<>◌}
use Prim.Native.Nat.{Ordering}
use atmcp.Base.Table.{fetch_one, select, exists_row, update, delete, insert, order_by}
use atmcp.Schema.{
  KnowledgeObject, Contribution, Knowledge, KnowledgeText, Caller, Clock, Json, knowledge_added,
  knowledge_retracted,
}
use atmcp.Wire.{Reply, knowledge_posted, unknown_content_id}
use atmcp.Db.{Db, Tx, Turn, returned, result, pure, fetch, execute, ◌>>=◌, ◌>>◌, done, raised}
use atmcp.Events.{append, opt_str}
use atmcp.Idempotency.{idempotent}
use atmcp.Server.{Server, Answer, serve, no_redis}
use atmcp.Tasks.Board.{page_size}

-- `digest title body tags` is the sha256 of the canonical JSON. `full_text query rows` are the rows
-- of the index that match, by rank, or `none` where SQLite refuses the query; `like pattern text` is LIKE.
pub record Outside : Type 0 where
  pub digest : String → String → List String → String
  pub lower : String → String
  pub full_text : String → List KnowledgeText → Option (List KnowledgeText)
  pub like : String → String → Bool

abbrev pub has_tag : String → List String → Bool
has_tag t tags = exists_row (λ x. x == t) tags

-- {t.strip().lower() for t in tags if t and t.strip()}
abbrev pub tag_set : (String → String) → List String → List String
tag_set lower [] = []
tag_set lower (t ∷ ts) =
    let rest = tag_set lower ts in
    if strip t == "" || has_tag (lower (strip t)) rest then rest else lower (strip t) ∷ rest

-- `sorted` of the set
unfoldable pub normalize_tags : (String → String) → List String → List String
normalize_tags lower tags = order_by is_before (tag_set lower tags)

abbrev pub is_known : String → String → Knowledge → Bool
is_known team_id cid k = k.team_id == team_id && k.content_id == cid

abbrev pub find_known : String → String → Db → Option Knowledge
find_known team_id cid db = fetch_one (is_known team_id cid) db.knowledge_current

abbrev pub is_contribution : String → String → Contribution → Bool
is_contribution team_id cid k = k.team_id == team_id && k.content_id == cid

-- COUNT(DISTINCT author_agent) of the rows
abbrev pub count_authors : List Contribution → ℕ
count_authors [] = 0
count_authors (k ∷ ks) =
    if exists_row (λ x. x.author_agent == k.author_agent) ks
    then count_authors ks
    else suc (count_authors ks)

unfoldable pub contributors : String → String → Db → ℕ
contributors team_id cid db =
    count_authors (select (is_contribution team_id cid) db.knowledge_contributions)

-- What one post brings: its text and its tags in the normal form.
pub record Post : Type 0 where
  pub title : String
  pub body : String
  pub tags : List String
  pub task_id : Option String

-- INSERT OR IGNORE
unfoldable pub add_object : String → Post → Db → Db
add_object cid p db =
    if exists_row (λ o. o.content_id == cid) db.knowledge_objects then db else record db {
      knowledge_objects =
          insert
            (record {
              content_id = cid;
              title = p.title;
              body = p.body;
              tags = p.tags;
              byte_size = len p.body;
            })
            db.knowledge_objects;
    }

unfoldable pub add_contribution : Clock → Caller → String → Post → ℕ → Db → Db
add_contribution clk c cid p eid db = record db {
  knowledge_contributions =
      insert
        (record {
          team_id = c.team_id;
          content_id = cid;
          author_agent = c.agent_id;
          task_id = p.task_id;
          created_at = clk.now;
          event_id = eid;
        })
        db.knowledge_contributions;
}

unfoldable pub known_row : Clock → Caller → String → Post → ℕ → ℕ → Knowledge
known_row clk c cid p ccount eid = record {
  team_id = c.team_id;
  content_id = cid;
  title = p.title;
  body = p.body;
  tags = p.tags;
  first_author = c.agent_id;
  contributor_count = ccount;
  present = true;
  first_seen_at = clk.now;
  last_seen_at = clk.now;
  last_event_id = eid;
}

abbrev pub seen_again : ℕ → ℕ → ℕ → Knowledge → Knowledge
seen_again now ccount eid k = record k {
  present = true;
  contributor_count = ccount;
  last_seen_at = now;
  last_event_id = eid;
}

-- The INSERT of content that is new to the team, the UPDATE of content that is known.
unfoldable pub write_known :
    Clock → Caller → String → Post → ℕ → ℕ → Option Knowledge → List Knowledge → List Knowledge
unfolding known_row
write_known clk c cid p ccount eid none rows = insert (known_row clk c cid p ccount eid) rows
write_known clk c cid p ccount eid (some k) rows =
    update (is_known c.team_id cid) (seen_again clk.now ccount eid) rows

abbrev pub is_indexed : String → String → KnowledgeText → Bool
is_indexed team_id cid f = f.team_id == team_id && f.content_id == cid

unfoldable pub index_text : String → String → Post → List KnowledgeText → List KnowledgeText
index_text team_id cid p rows =
    insert
      (record {
        team_id = team_id;
        content_id = cid;
        title = p.title;
        body = p.body;
        tags = p.tags;
      })
      (delete (is_indexed team_id cid) rows)

-- Past the contribution: the row of the team, the index and the answer.
unfoldable pub publish : Clock → Caller → String → Post → ℕ → ℕ → Option Knowledge → Tx Turn
unfolding write_known index_text
publish clk c cid p eid ccount existing = do
  execute (λ db. record db {
    knowledge_current = write_known clk c cid p ccount eid existing db.knowledge_current;
    knowledge_fts = index_text c.team_id cid p db.knowledge_fts;
  })
  pure (result (knowledge_posted cid eid (is_some existing) ccount))

-- Past the object: the event, the contribution, and what follows from them.
unfoldable pub contribute : Clock → Caller → String → Post → Tx Turn
unfolding append add_contribution contributors publish
contribute clk c cid p = do
  eid ← append clk c.team_id knowledge_added "knowledge" (some cid) (some c.agent_id) (
      ("title", Json.str p.title)
      ∷ ("tags", Json.strs p.tags)
      ∷ ("task_id", opt_str p.task_id)
      ∷ [])
  execute (add_contribution clk c cid p eid)
  ccount ← fetch (contributors c.team_id cid)
  existing ← fetch (find_known c.team_id cid)
  publish clk c cid p eid ccount existing

unfoldable pub post_tx : Clock → Caller → String → Post → Tx Turn
unfolding add_object contribute
post_tx clk c cid p = do execute (add_object cid p); contribute clk c cid p

-- `content_id`, on tags in the normal form.
abbrev pub content_id_of : Outside → Post → String
content_id_of out p = out.digest p.title p.body p.tags

abbrev pub normal_post : Outside → String → String → List String → Option String → Post
normal_post out title body tags task_id = record {
  title = title;
  body = body;
  tags = normalize_tags out.lower tags;
  task_id = task_id;
}

unfoldable pub post_knowledge :
    Outside
    → Clock
    → Caller
    → String
    → String
    → List String
    → Option String
    → Option String
    → Server
    → Answer Reply × Server
unfolding post_tx normalize_tags
post_knowledge out clk c title body tags task_id idem_key =
    let p = normal_post out title body tags task_id in
    serve (idempotent clk c idem_key (post_tx clk c (content_id_of out p) p)) no_redis

abbrev pub retracted_row : ℕ → ℕ → Knowledge → Knowledge
retracted_row now eid k = record k { present = false; last_seen_at = now; last_event_id = eid }

unfoldable pub hide : Clock → Caller → String → Tx Turn
unfolding append
hide clk c cid = do
  eid ← append clk c.team_id knowledge_retracted "knowledge" (some cid) (some c.agent_id) []
  execute (λ db. record db {
    knowledge_current =
        update (is_known c.team_id cid) (retracted_row clk.now eid) db.knowledge_current;
    knowledge_fts = delete (is_indexed c.team_id cid) db.knowledge_fts;
  })
  pure (result (Reply.knowledge_retracted cid eid))

abbrev pub hide_found : Clock → Caller → String → Option Knowledge → Tx Turn
hide_found clk c cid none = pure (returned unknown_content_id)
hide_found clk c cid (some k) = hide clk c cid

unfoldable pub retract_tx : Clock → Caller → String → Tx Turn
unfolding hide
retract_tx clk c cid = do existing ← fetch (find_known c.team_id cid); hide_found clk c cid existing

unfoldable pub retract_knowledge :
    Clock → Caller → String → Option String → Server → Answer Reply × Server
unfolding retract_tx
retract_knowledge clk c cid idem_key =
    serve (idempotent clk c idem_key (retract_tx clk c cid)) no_redis
