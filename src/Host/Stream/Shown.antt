-- ===== src/Host/Stream/Shown.antt =====
-- What the structured driver shows of a stream: all of its text, in order, in bounded chunks.
use atmcp.Base.{
  String, ◌≡◌, refl, ap, sym, ◌∙◌, Bool, true, false, ◌||◌, Option, none, some, List, [], ◌∷◌, ◌==◌,
  Bool-cases, inl, inr, eq_iff, if◌then◌else◌, leb, concat, map, concat-append, ℤ,
}
use Prim.Native.String.{◌++◌ as ◌<>◌}
use text.Mathlib.TextLemmas.{nil-append, append-nil, append_assoc}
use atmcp.Host.Stream.{
  Line, Kind, init, delta, assistant, result, other, classify_event, Drive, flush, flushed, buffer,
  on_delta, feed, feed_all, open_drive, Outcome, result_text, send_final, finish, drive_claude,
}

-- What one line adds to the output: a delta its text, a whole message its text if no delta came.
abbrev pub shown_line : Bool → Kind → String
shown_line got (init sid) = ""
shown_line got (delta t) = t
shown_line got (assistant t) = if got then "" else t
shown_line got (result o) = ""
shown_line got other = ""

abbrev pub got_after : Bool → Kind → Bool
got_after got (delta t) = if t == "" then got else true
got_after got (init sid) = got
got_after got (assistant t) = got
got_after got (result o) = got
got_after got other = got

abbrev pub outcome_after : Option Outcome → Kind → Option Outcome
outcome_after o (result r) = some r
outcome_after o (init sid) = o
outcome_after o (delta t) = o
outcome_after o (assistant t) = o
outcome_after o other = o

abbrev pub shown : Bool → List Kind → String
shown got [] = ""
shown got (k ∷ ks) = shown_line got k <> shown (got_after got k) ks

abbrev pub any_delta : Bool → List Kind → Bool
any_delta got [] = got
any_delta got (k ∷ ks) = any_delta (got_after got k) ks

abbrev pub last_outcome : Option Outcome → List Kind → Option Outcome
last_outcome o [] = o
last_outcome o (k ∷ ks) = last_outcome (outcome_after o k) ks

-- The text so far, sent or waiting.
abbrev out : Drive → String
out d = concat d.sent <> concat d.buf

-- A step of the driver: the text that it adds, and the two variables that the end reads.
record Step (d d' : Drive) (text : String) (g : Bool) (o : Option Outcome) : Type 0 where
  adds : out d' ≡ out d <> text
  got : d'.got_delta ≡ g
  outcome : d'.outcome ≡ o

flushed-out :
    (buf : List String) (d : Drive) → d.buf ≡ buf → Step d (flushed buf d) "" d.got_delta d.outcome
flushed-out [] d e = record { adds = sym (append-nil (out d)); got = refl; outcome = refl }
flushed-out (t ∷ ts) d e = record {
  adds = rw (e, concat-append d.sent (concat (t ∷ ts) ∷ []), append-nil (concat (t ∷ ts))) refl;
  got = refl;
  outcome = refl;
}

buffer-out : (t : String) (d : Drive) → Step d (buffer t d) t d.got_delta d.outcome
unfolding buffer
buffer-out t d = record {
  adds =
      rw (concat-append d.buf (t ∷ []), append-nil t)
        (sym (append_assoc (concat d.sent) (concat d.buf) t));
  got = refl;
  outcome = refl;
}

-- One step after another.
after :
    {d d' d'' : Drive} {x y : String} {g g' : Bool} {o o' : Option Outcome}
    → Step d d' x g o
    → Step d' d'' y g' o'
    → Step d d'' (x <> y) g' o'
after {d} {d'} {d''} {x} {y} s u = record {
  adds = u.adds ∙ ap (λ t. t <> y) s.adds ∙ append_assoc (out d) x y;
  got = u.got;
  outcome = u.outcome;
}

flush-out : (d : Drive) → Step d (flush d) "" d.got_delta d.outcome
unfolding flush
flush-out d = flushed-out d.buf d refl

then_flush :
    {d d' : Drive} {x : String} {g : Bool} {o : Option Outcome}
    → Step d d' x g o
    → Step d (flush d') x g o
then_flush {d} {d'} s =
    let f = flush-out d' in
    record {
      adds = f.adds ∙ append-nil (out d') ∙ s.adds;
      got = f.got ∙ s.got;
      outcome = f.outcome ∙ s.outcome;
    }

quiet : (d : Drive) → Step d d "" d.got_delta d.outcome
quiet d = record { adds = sym (append-nil (out d)); got = refl; outcome = refl }

on_delta-out : (t : String) (d : Drive) → Step d (on_delta t d) t true d.outcome
on_delta-out t d =
    let first : Step d (buffer t (record d { got_delta = true })) t true d.outcome =
      let b = buffer-out t (record d { got_delta = true }) in
      record { adds = b.adds; got = b.got; outcome = b.outcome } in
    let d' = buffer t (record d { got_delta = true }) in
    elim (Bool-cases (leb 200 d'.buf_len)) [ inl e ↦ rw e (then_flush first) | inr e ↦ rw e first ]

assistant-out :
    (t : String) (d : Drive) (blank got : Bool)
    → (t == "") ≡ blank
    → d.got_delta ≡ got
    → Step d (if blank || got then d else flush (buffer t d)) (if got then "" else t) got d.outcome
assistant-out t d true true e k = record {
  adds = sym (append-nil (out d));
  got = k;
  outcome = refl;
}
assistant-out t d false true e k = record {
  adds = sym (append-nil (out d));
  got = k;
  outcome = refl;
}
assistant-out t d true false e k =
    let none_ : t ≡ "" = (eq_iff t "").0 e in
    rw none_ (record { adds = sym (append-nil (out d)); got = k; outcome = refl })
assistant-out t d false false e k =
    let f = then_flush (buffer-out t d) in
    record { adds = f.adds; got = f.got ∙ k; outcome = f.outcome }

feed-out :
    (k : Kind) (d : Drive)
    → Step d
        (feed k d)
        (shown_line d.got_delta k)
        (got_after d.got_delta k)
        (outcome_after d.outcome k)
unfolding feed
feed-out (init sid) d = record { adds = sym (append-nil (out d)); got = refl; outcome = refl }
feed-out (result r) d = record { adds = sym (append-nil (out d)); got = refl; outcome = refl }
feed-out other d = quiet d
feed-out (delta t) d = elim (Bool-cases (t == "")) [
  | inl e ↦ let none_ : t ≡ "" = (eq_iff t "").0 e in rw e (rw none_ (quiet d))
  | inr e ↦ rw e (on_delta-out t d)
]
feed-out (assistant t) d = assistant-out t d (t == "") d.got_delta refl refl

feed_all-out :
    (ks : List Kind) (d : Drive) (g : Bool) (o : Option Outcome)
    → d.got_delta ≡ g
    → d.outcome ≡ o
    → Step d (feed_all ks d) (shown g ks) (any_delta g ks) (last_outcome o ks)
unfolding feed_all
feed_all-out [] d g o eg eo = record { adds = sym (append-nil (out d)); got = eg; outcome = eo }
feed_all-out (k ∷ ks) d g o eg eo =
    let s : Step d (feed k d) (shown_line g k) (got_after g k) (outcome_after o k) =
      rw (← eg, ← eo) (feed-out k d) in
    after s (feed_all-out ks (feed k d) (got_after g k) (outcome_after o k) s.got s.outcome)

flushed-empty : (buf : List String) (d : Drive) → d.buf ≡ buf → (flushed buf d).buf ≡ []
flushed-empty [] d e = e
flushed-empty (t ∷ ts) d e = refl

send_final-sent :
    (t : String) (d : Drive) (got blank : Bool)
    → d.got_delta ≡ got
    → (t == "") ≡ blank
    → concat (send_final t d).sent ≡ concat d.sent <> (if got || blank then "" else t)
send_final-sent t d true blank k e = rw k (sym (append-nil (concat d.sent)))
send_final-sent t d false true k e = rw (k, e) (sym (append-nil (concat d.sent)))
send_final-sent t d false false k e =
    rw (k, e) (concat-append d.sent (t ∷ []) ∙ ap (λ x. concat d.sent <> x) (append-nil t))

-- The chunks of a turn put together are all the text of its stream, in order: the deltas, the whole
-- messages that come before any delta, and at the end the text of the last result if no delta
-- came. Nothing is lost in the buffer and nothing comes twice, wherever the chunks are cut.
pub drive_claude-shown :
    (cli_sid : Option String) (lines : List Line) (stderr : String) (code : ℤ)
    → let ks = map classify_event lines in
      let final = result_text (last_outcome none ks) in
      concat (drive_claude cli_sid lines stderr code).sent
      ≡ shown false ks <> (if any_delta false ks || final == "" then "" else final)
unfolding drive_claude finish flush open_drive
drive_claude-shown cli_sid lines stderr code =
    let ks = map classify_event lines in
    let d = feed_all ks (open_drive cli_sid) in
    let fed = feed_all-out ks (open_drive cli_sid) false none refl refl in
    let s = then_flush fed in
    let final = result_text (last_outcome none ks) in
    let text : concat (flush d).sent ≡ shown false ks =
      sym (append-nil (concat (flush d).sent))
      ∙ ap (λ b. concat (flush d).sent <> concat b) (sym (flushed-empty d.buf d refl))
      ∙ s.adds
      ∙ nil-append (shown false ks) in
    rw fed.outcome (
      send_final-sent final (flush d) (any_delta false ks) (final == "") s.got refl
      ∙ ap (λ x. x <> (if any_delta false ks || final == "" then "" else final)) text)
