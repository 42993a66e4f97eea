-- ===== src/Host/Sse.antt =====
-- scripts/atmcp_workbench_host.py, `_openai_stream_blocking` and `_openai_round`: a round of a chat is read
-- from the stream of a model server. A line is what json.loads made of it.
pub mod Slots
pub mod Assembled
use atmcp.Base.{
  ℕ, ◌+◌, eqb, ltb, leb, String, Bool, Option, none, some, List, [], ◌∷◌, ◌++◌, len, concat,
  if◌then◌else◌, truthy, coalesce,
}
use Prim.Native.String.{◌++◌ as ◌<>◌}
use atmcp.Base.Table.{exists_row, update, insert, order_by}

-- An entry of `delta.tool_calls`. A missing index is 0.
pub record ToolDelta : Type 0 where
  pub index : ℕ
  pub id : Option String
  pub name : Option String
  pub arguments : Option String

pub record Tokens : Type 0 where
  pub prompt : ℕ
  pub completion : ℕ

pub data SseLine : Type 0 where
  ignored : SseLine
  done_mark : SseLine
  object : (usage : Option Tokens) (content : Option String) (tool_calls : List ToolDelta) → SseLine

-- A tool call under assembly, with the index that it has in `tcs`.
pub record Slot : Type 0 where
  pub index : ℕ
  pub id : Option String
  pub name : String
  pub arguments : String

abbrev pub has_index : ℕ → Slot → Bool
has_index i s = eqb s.index i

abbrev pub new_slot : ℕ → Slot
new_slot i = record { index = i; id = none; name = ""; arguments = "" }

-- The id and the name are set, the arguments are appended.
abbrev pub fill : ToolDelta → Slot → Slot
fill d s = record s {
  id = elim (truthy d.id) [ none ↦ s.id | some i ↦ some i ];
  name = coalesce (truthy d.name) s.name;
  arguments = s.arguments <> coalesce d.arguments "";
}

-- `setdefault`
abbrev pub with_slot : ℕ → List Slot → List Slot
with_slot i slots = if exists_row (has_index i) slots then slots else insert (new_slot i) slots

abbrev pub put_delta : ToolDelta → List Slot → List Slot
put_delta d slots = update (has_index d.index) (fill d) (with_slot d.index slots)

abbrev pub put_deltas : List ToolDelta → List Slot → List Slot
put_deltas [] slots = slots
put_deltas (d ∷ ds) slots = put_deltas ds (put_delta d slots)

-- What the stream has brought: the texts in the order of `emit`, the slots and the usage.
pub record Heard : Type 0 where
  pub parts : List String
  pub slots : List Slot
  pub usage : Tokens

abbrev pub silence : Heard
silence = record { parts = []; slots = []; usage = record { prompt = 0; completion = 0 } }

abbrev pub add_part : Option String → List String → List String
add_part none parts = parts
add_part (some t) parts = parts ++ t ∷ []

abbrev pub hear : Option Tokens → Option String → List ToolDelta → Heard → Heard
hear usage content calls h = record {
  parts = add_part (truthy content) h.parts;
  slots = put_deltas calls h.slots;
  usage = coalesce usage h.usage;
}

abbrev pub read_stream : List SseLine → Heard → Heard
read_stream [] h = h
read_stream (ignored ∷ ls) h = read_stream ls h
read_stream (done_mark ∷ ls) h = h
read_stream (object usage content calls ∷ ls) h = read_stream ls (hear usage content calls h)

abbrev pub lower_index : Slot → Slot → Bool
lower_index a b = ltb a.index b.index

pub record ChatRound : Type 0 where
  pub content : String
  pub tool_calls : List Slot
  pub usage : Tokens

unfoldable pub openai_stream : List SseLine → ChatRound
openai_stream lines =
    let h = read_stream lines silence in
    record { content = concat h.parts; tool_calls = order_by lower_index h.slots; usage = h.usage }

-- The batches of `_openai_round`, which are sent as output.
pub record Batch : Type 0 where
  pub buf : List String
  pub buf_len : ℕ
  pub sent : List String

abbrev pub send_batch : List String → Batch → Batch
send_batch [] b = b
send_batch (t ∷ ts) b = record { buf = []; buf_len = 0; sent = b.sent ++ concat (t ∷ ts) ∷ [] }

abbrev pub add_text : String → Batch → Batch
add_text t b =
    let b' = record b { buf = b.buf ++ t ∷ []; buf_len = b.buf_len + len t } in
    if leb 120 b'.buf_len then send_batch b'.buf b' else b'

abbrev pub add_texts : List String → Batch → Batch
add_texts [] b = send_batch b.buf b
add_texts (t ∷ ts) b = add_texts ts (add_text t b)

unfoldable pub round_output : List SseLine → List String
round_output lines =
    let h = read_stream lines silence in
    (add_texts h.parts (record { buf = []; buf_len = 0; sent = [] })).sent
