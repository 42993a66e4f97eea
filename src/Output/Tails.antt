-- ===== src/Output/Tails.antt =====
-- services/output.py: a chunk is never put into another agent's thread.
use atmcp.Base.{
  ◌+◌, String, ◌≡◌, refl, true, Option, none, some, Bool-cases, inl, inr, ◌==◌, ◌&&◌, ◌⊎◌,
}
use atmcp.Base.Table.{exists_row, insert}
use atmcp.Schema.{Output, Settings, Clock}
use atmcp.Db.{Db}
use atmcp.Server.{Server, replied, serve}
use atmcp.Output.{Chunk, session_tag, output_row, output_tx, append_output, cut_text}

session_tag_lem :
    (team agent : String) (asked : Option String) (db : Db)
    → (session_tag team agent asked db ≡ none)
      ⊎ ((id : String) × (session_tag team agent asked db ≡ some id)
          × (exists_row
                (λ x. (x.team_id == team && x.session_id == id) && x.agent_id == agent)
                db.sessions
              ≡ true))
unfolding session_tag
session_tag_lem team agent none db = inl refl
session_tag_lem team agent (some id) db =
    elim (Bool-cases (
      exists_row (λ x. (x.team_id == team && x.session_id == id) && x.agent_id == agent)
        db.sessions)) [ inl e ↦ inr (id, rw e refl, e) | inr e ↦ inl (rw e refl) ]

-- `append_output` always answers the next cursor and adds one row at the end of the output, under that
-- cursor, with the text cut to the limit. The row names a session only if that is a session of the
-- team which belongs to the writing agent, whatever session was asked for.
pub append_output-row :
    (cfg : Settings) (clk : Clock) (team agent : String) (ch : Chunk) (s : Server)
    → (o : Output) × ((append_output cfg clk team agent ch s).0 ≡ replied (s.db.last_output_id + 1))
      × ((append_output cfg clk team agent ch s).1.db.agent_output ≡ insert o s.db.agent_output)
      × (o.id ≡ s.db.last_output_id + 1)
      × (o.agent_id ≡ agent)
      × (o.text ≡ cut_text cfg ch.text)
      × ((o.session_id ≡ none)
          ⊎ ((id : String) × (o.session_id ≡ some id)
              × (exists_row
                    (λ x. (x.team_id == team && x.session_id == id) && x.agent_id == agent)
                    s.db.sessions
                  ≡ true)))
unfolding append_output output_tx output_row serve
append_output-row cfg clk team agent ch s =
    (_, refl, refl, refl, refl, refl, session_tag_lem team agent ch.session_id s.db)
