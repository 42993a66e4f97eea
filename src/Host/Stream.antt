-- ===== src/Host/Stream.antt =====
-- The structured driver of the host, `_drive_claude`: the lines that the model prints become chunks of
-- output. A line is given by the fields that the host reads; `json.loads` made it.
pub mod Shown
use atmcp.Base.{
  ℕ, zero, suc, ◌+◌, String, Bool, true, false, not, ◌&&◌, ◌||◌, Option, none, some, List, [], ◌∷◌,
  ◌++◌, ◌==◌, ltb, leb, if◌then◌else◌, truthy, coalesce, coalesce?, holds, prefix, strip, ℤ, pos,
  negsuc, str_ℕ, concat, len, map,
}
use Prim.Native.String.{◌++◌ as ◌<>◌}

-- A block of `message.content`.
pub record Block : Type 0 where
  pub type : Option String
  pub text : Option String

-- The object of a `result` line.
pub record Outcome : Type 0 where
  pub is_error : Bool
  pub result : Option String

pub record Line : Type 0 where
  pub type : Option String
  pub subtype : Option String
  pub session_id : Option String
  pub event_type : Option String
  pub delta_type : Option String
  pub delta_text : Option String
  pub content : List Block
  pub outcome : Outcome

pub data Kind : Type 0 where
  init : Option String → Kind
  delta : String → Kind
  assistant : String → Kind
  result : Outcome → Kind
  other : Kind

-- "".join(b.get("text", "") for b in … if b.get("type") == "text")
unfoldable pub block_text : List Block → String
block_text [] = ""
block_text (b ∷ bs) =
    let rest = block_text bs in if holds b.type "text" then coalesce b.text "" <> rest else rest

unfoldable pub classify_event : Line → Kind
unfolding block_text
classify_event l =
    if holds l.type "system" && holds l.subtype "init"
    then init l.session_id
    else if holds l.type "stream_event"
    then (if holds l.event_type "content_block_delta" && holds l.delta_type "text_delta"
        then delta (coalesce l.delta_text "")
        else other)
    else if holds l.type "assistant"
    then assistant (block_text l.content)
    else if holds l.type "result"
    then result l.outcome
    else other

-- The variables of the driver, and the chunks that `append_output` got.
pub record Drive : Type 0 where
  pub cli_sid : Option String
  pub outcome : Option Outcome
  pub got_delta : Bool
  pub buf : List String
  pub buf_len : ℕ
  pub sent : List String

abbrev pub flushed : List String → Drive → Drive
flushed [] d = d
flushed (t ∷ ts) d = record d { buf = []; buf_len = 0; sent = d.sent ++ concat (t ∷ ts) ∷ [] }

-- `flush`
unfoldable pub flush : Drive → Drive
flush d = flushed d.buf d

unfoldable pub buffer : String → Drive → Drive
buffer t d = record d { buf = d.buf ++ t ∷ []; buf_len = d.buf_len + len t }

-- The body of `async for raw in proc.stdout`, on a line that was read.
abbrev pub on_delta : String → Drive → Drive
on_delta t d =
    let d' = buffer t (record d { got_delta = true }) in if leb 200 d'.buf_len then flush d' else d'

unfoldable pub feed : Kind → Drive → Drive
unfolding flush buffer
feed (init sid) d = record d { cli_sid = coalesce? (truthy sid) d.cli_sid }
feed (delta t) d = if t == "" then d else on_delta t d
feed (assistant t) d = if t == "" || d.got_delta then d else flush (buffer t d)
feed (result o) d = record d { outcome = some o }
feed other d = d

unfoldable pub feed_all : List Kind → Drive → Drive
unfolding feed
feed_all [] d = d
feed_all (k ∷ ks) d = feed_all ks (feed k d)

unfoldable pub open_drive : Option String → Drive
open_drive cli_sid = record {
  cli_sid = cli_sid;
  outcome = none;
  got_delta = false;
  buf = [];
  buf_len = 0;
  sent = [];
}

abbrev pub str_ℤ : ℤ → String
str_ℤ (pos n) = str_ℕ n
str_ℤ (negsuc n) = "-" <> str_ℕ (n + 1)

-- bool(result_obj) and not result_obj.get("is_error", False) and proc.returncode == 0
abbrev pub is_success : Option Outcome → ℤ → Bool
is_success (some o) (pos zero) = not o.is_error
is_success _ _ = false

-- (result_obj or {}).get("result") or ""
abbrev pub result_text : Option Outcome → String
result_text none = ""
result_text (some o) = coalesce (truthy o.result) ""

-- (stderr.strip() or f"exit {proc.returncode}")[:4000]
abbrev pub failure_text : String → ℤ → String
failure_text stderr code =
    prefix 4000 (if strip stderr == "" then "exit " <> str_ℤ code else strip stderr)

abbrev pub send_final : String → Drive → Drive
send_final t d = if d.got_delta || t == "" then d else record d { sent = d.sent ++ t ∷ [] }

-- What the driver answers, without the usage.
pub record Driven : Type 0 where
  pub ok : Bool
  pub final_text : String
  pub cli_sid : Option String
  pub sent : List String

-- After the stream has ended.
unfoldable pub finish : String → ℤ → Drive → Driven
finish stderr code d =
    let d' = send_final (result_text d.outcome) (flush d) in
    let ok = is_success d.outcome code in
    record {
      ok = ok;
      final_text =
          if not ok && result_text d.outcome == ""
          then failure_text stderr code
          else result_text d.outcome;
      cli_sid = d'.cli_sid;
      sent = d'.sent;
    }

-- The driver on a process that was started: its lines, its other output and its exit code.
unfoldable pub drive_claude : Option String → List Line → String → ℤ → Driven
unfolding feed_all classify_event open_drive finish
drive_claude cli_sid lines stderr code =
    finish stderr code (feed_all (map classify_event lines) (open_drive cli_sid))
