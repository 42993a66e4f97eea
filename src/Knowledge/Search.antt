-- ===== src/Knowledge/Search.antt =====
-- services/knowledge.py: what a search finds.
use atmcp.Base.{
  ℕ, String, Bool, true, ◌&&◌, ◌||◌, Option, none, some, List, [], ◌∷◌, ◌++◌, ◌==◌, ltb,
  if◌then◌else◌, strip, take, ℤ,
}
use Prim.Native.String.{◌++◌ as ◌<>◌}
use atmcp.Base.Table.{select, order_by}
use atmcp.Schema.{Knowledge, KnowledgeText, Caller}
use atmcp.Db.{Db}
use atmcp.Tasks.Board.{page_size}
use atmcp.Knowledge.{Outside, has_tag, normalize_tags}

-- present=1 AND last_event_id>?
abbrev pub is_visible : String → ℕ → Knowledge → Bool
is_visible team_id since k = k.team_id == team_id && (k.present && ltb since k.last_event_id)

abbrev pub later_seen : Knowledge → Knowledge → Bool
later_seen a b = ltb b.last_seen_at a.last_seen_at

-- The JOIN of the ranked rows of the index with the rows of the team.
abbrev pub join_known : String → ℕ → List Knowledge → List KnowledgeText → List Knowledge
join_known team_id since rows [] = []
join_known team_id since rows (f ∷ fs) =
    let rest = join_known team_id since rows fs in
    if f.team_id == team_id
    then select (λ k. is_visible team_id since k && k.content_id == f.content_id) rows ++ rest
    else rest

unfoldable pub by_recency : String → ℕ → (Knowledge → Bool) → List Knowledge → List Knowledge
by_recency team_id since p rows =
    order_by later_seen (select (λ k. is_visible team_id since k && p k) rows)

-- A query that SQLite refuses falls back to a scan.
abbrev pub by_text :
    Outside → String → ℕ → String → Option (List KnowledgeText) → List Knowledge → List Knowledge
by_text out team_id since query (some hits) rows = join_known team_id since rows hits
by_text out team_id since query none rows =
    let pattern = "%" <> (strip query <> "%") in
    by_recency team_id since (λ k. out.like pattern k.title || out.like pattern k.body) rows

abbrev pub by_query : Outside → String → ℕ → Option String → Db → List Knowledge
by_query out team_id since none db = by_recency team_id since (λ k. true) db.knowledge_current
by_query out team_id since (some query) db =
    if strip query == ""
    then by_recency team_id since (λ k. true) db.knowledge_current
    else by_text out team_id since query (out.full_text query db.knowledge_fts) db.knowledge_current

abbrev pub has_all : List String → List String → Bool
has_all [] tags = true
has_all (w ∷ ws) tags = has_tag w tags && has_all ws tags

-- `if tags: …`
abbrev pub with_tags : Outside → List String → List Knowledge → List Knowledge
with_tags out [] rows = rows
with_tags out (t ∷ ts) rows = select (λ k. has_all (normalize_tags out.lower (t ∷ ts)) k.tags) rows

unfoldable pub search_knowledge :
    Outside → Caller → Option String → List String → ℕ → ℤ → Db → List Knowledge
unfolding by_recency
search_knowledge out c query tags since limit db =
    with_tags out tags (take (page_size 50 200 limit) (by_query out c.team_id since query db))
