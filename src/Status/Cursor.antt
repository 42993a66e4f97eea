-- ===== src/Status/Cursor.antt =====
-- services/status.py: reading the log page by page.
use atmcp.Base.{
  ℕ, zero, suc, ◌≤◌, ◌<◌, String, ◌≡◌, refl, ap, ◌∙◌, Bool, true, false, List, [], ◌∷◌, arith,
  Bool-cases, inl, inr, ltb, take, drop, All, ℤ,
}
use atmcp.Base.Table.{select}
use atmcp.Base.Table.Laws.{All-select}
use atmcp.Schema.{Event}
use atmcp.Db.{Db}
use atmcp.Tasks.Board.{page_size}
use atmcp.Status.{sync, is_after, of_team}

-- The ids of the log go up.
abbrev pub Ascending : List Event → Type 0
Ascending [] = Unit
Ascending (e ∷ es) = All (λ x. e.event_id < x.event_id) es × Ascending es

select-Ascending : (p : Event → Bool) (es : List Event) → Ascending es → Ascending (select p es)
select-Ascending p [] a = tt
select-Ascending p (e ∷ es) a = elim (Bool-cases (p e)) [
  | inl h ↦ rw h (All-select p (λ x. e.event_id < x.event_id) es a.0, select-Ascending p es a.1)
  | inr h ↦ rw h (select-Ascending p es a.1)
]

-- The id that a reader goes on from: the last one of the page, or the one it had.
abbrev pub cursor_after : ℕ → List Event → ℕ
cursor_after since [] = since
cursor_after since (e ∷ es) = cursor_after e.event_id es

select-above :
    (d : ℕ) (es : List Event)
    → All (λ x. d < x.event_id) es
    → select (λ e. ltb d e.event_id) es ≡ es
select-above d [] a = refl
select-above d (e ∷ es) a =
    let here : ltb d e.event_id ≡ true = ground (arith, a.0) in
    rw (here, select-above d es a.1) refl

page-cursor :
    (d n : ℕ) (es : List Event)
    → All (λ x. d < x.event_id) es
    → Ascending es
    → (select (λ e. ltb (cursor_after d (take n es)) e.event_id) es ≡ drop n es)
      × (d ≤ cursor_after d (take n es))
page-cursor d zero es a b = (select-above d es a, omega arith)
page-cursor d (suc n) [] a b = (refl, omega arith)
page-cursor d (suc n) (e ∷ es) a b =
    let (rest, up) = page-cursor e.event_id n es b.0 b.1 in
    let out : ltb (cursor_after e.event_id (take n es)) e.event_id ≡ false = ground (arith, up) in
    (rw (out, rest) refl, omega (arith, up, a.0))

later-select :
    (team : String) (since l : ℕ) (es : List Event)
    → since ≤ l
    → select (is_after team l) es ≡ select (λ e. ltb l e.event_id) (select (is_after team since) es)
later-select team since l [] h = refl
later-select team since l (e ∷ es) h =
    let rest = later-select team since l es h in
    elim (Bool-cases (of_team team e)) [
      | inr other ↦ rw other rest
      | inl mine ↦ elim (Bool-cases (ltb l e.event_id)) [
        | inl far ↦
            let since_far : ltb since e.event_id ≡ true = ground (arith, h) in
            rw (mine, far, since_far) (rw (far, rest) refl)
        | inr near ↦ elim (Bool-cases (ltb since e.event_id)) [
          | inl k ↦ rw (mine, near, k) (rw (near, rest) refl)
          | inr k ↦ rw (mine, near, k) rest
        ]
      ]
    ]

selected-after :
    (team : String) (since : ℕ) (es : List Event)
    → All (λ x. since < x.event_id) (select (is_after team since) es)
selected-after team since [] = tt
selected-after team since (e ∷ es) = elim (Bool-cases (is_after team since e)) [
  | inl h ↦ rw h (ground arith, selected-after team since es)
  | inr h ↦ rw h (selected-after team since es)
]

-- On a log whose ids go up, an agent that calls `sync` again with the id of the last event that it
-- got (or its old cursor, if it got none) goes on exactly where the first page ended: no event of its
-- team is left out and none comes twice, whatever the two limits are.
pub sync-resumes :
    (team : String) (since : ℕ) (limit limit' : ℤ) (db : Db)
    → Ascending db.events
    → let page = (sync team since limit db).events in
      (sync team (cursor_after since page) limit' db).events
      ≡ take
          (page_size 200 1000 limit')
          (drop (page_size 200 1000 limit) (select (is_after team since) db.events))
unfolding sync
sync-resumes team since limit limit' db a =
    let all = select (is_after team since) db.events in
    let (rest, up) =
      page-cursor since (page_size 200 1000 limit) all (selected-after team since db.events)
        (select-Ascending (is_after team since) db.events a) in
    ap (take (page_size 200 1000 limit')) (later-select team since _ db.events up ∙ rest)
