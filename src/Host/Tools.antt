-- ===== src/Host/Tools.antt =====
-- scripts/atmcp_workbench_host.py, `_run_tool`: what a tool call of the model does on the machine.
use atmcp.Base.{
  ℕ, String, ◌==◌, Bool, true, false, ◌||◌, Option, none, some, List, ◌∷◌, prefix, coalesce,
  if◌then◌else◌, ℤ,
}
use Prim.Native.String.{◌++◌ as ◌<>◌}
use atmcp.Schema.{RequestStatus}
use atmcp.Guard.{Verdict}
use atmcp.Guard.Rules.{Regex}
use atmcp.Host.Gate.{Passed, guard_allows}
use atmcp.Host.Paths.{safe_path}
use atmcp.Host.Stream.{str_ℤ}

-- A field of the object of the arguments: not there, a text, or another value, with whether it is true
-- for `not` and the name of its type.
pub data Field : Type 0 where
  absent : Field
  text : String → Field
  value : (as_bool : Bool) (type_name : String) → Field

-- What `json.loads` makes of the arguments: a ValueError, a value that is no object, or an object. `dump`
-- is `json.dumps` of it.
pub data Loaded : Type 0 where
  not_json : Loaded
  no_object : (dump : String) → Loaded
  object : (command path content : Field) (dump : String) → Loaded

-- What the tools read from the arguments; `bad_content` is the type of a content that is no text.
pub record ToolArgs : Type 0 where
  pub command : String
  pub path : String
  pub content : String
  pub bad_content : Option String
  pub dump : String

abbrev pub plain_args : String → ToolArgs
plain_args dump = record { command = ""; path = ""; content = ""; bad_content = none; dump = dump }

-- The command is matched against patterns, here or at the server, which want a text.
abbrev pub read_command : Field → Option String
read_command absent = some ""
read_command (text s) = some s
read_command (value as_bool type_name) = none

-- `not rel or os.path.isabs(rel)`: any false value is as the empty path, and `isabs` wants a text.
abbrev pub read_path : Field → Option String
read_path absent = some ""
read_path (text s) = some s
read_path (value false type_name) = some ""
read_path (value true type_name) = none

abbrev pub read_content : Field → String
read_content absent = ""
read_content (text s) = s
read_content (value as_bool type_name) = ""

abbrev pub bad_type : Field → Option String
bad_type absent = none
bad_type (text s) = none
bad_type (value as_bool type_name) = some type_name

abbrev pub is_file_tool : String → Bool
is_file_tool name = name == "read_file" || name == "write_file"

-- The arguments as `_run_tool` reads them for a tool; `none` is an AttributeError or a TypeError that it
-- does not catch. It comes before anything is done on the machine.
unfoldable pub read_args : String → Loaded → Option ToolArgs
read_args name not_json = some (plain_args "{}")
read_args name (no_object dump) =
    if name == "run_bash" || is_file_tool name then none else some (plain_args dump)
read_args name (object command path content dump) =
    if name == "run_bash"
    then elim (read_command command) [
      | none ↦ none
      | some cmd ↦ some (record (plain_args dump) { command = cmd })
    ]
    else if is_file_tool name
    then elim (read_path path) [
      | none ↦ none
      | some rel ↦ some (record (plain_args dump) {
        path = rel;
        content = read_content content;
        bad_content = bad_type content;
      })
    ]
    else some (plain_args dump)

-- What a tool did; `makedirs` belongs to the write.
pub data Effect : Type 0 where
  ran : (command : String) → Effect
  read_from : (path : String) → Effect
  wrote_to : (path content : String) → Effect

pub data BashEnd : Type 0 where
  finished : (out : String) (code : ℤ) → BashEnd
  timed_out : BashEnd
  failed : (error : String) → BashEnd

pub data ReadEnd : Type 0 where
  contents : (text : String) → ReadEnd
  unreadable : (error : String) → ReadEnd

-- The machine and the server's guard, which may both depend on what was done before (the last effect
-- comes first). `write` is `none` if it succeeds.
pub record World : Type 0 where
  pub verdict : List Effect → String → Option Verdict
  pub poll : List Effect → ℕ → Option RequestStatus
  pub ask_timeout : ℕ
  pub bash : List Effect → String → BashEnd
  pub read : List Effect → String → ReadEnd
  pub write : List Effect → String → String → Option String

-- The text for the model, and all effects.
pub record Tooled : Type 0 where
  pub result : String
  pub effects : List Effect

abbrev pub or_exit : String → ℤ → String
or_exit out code = if out == "" then "(exit " <> (str_ℤ code <> ")") else out

abbrev pub bash_result : BashEnd → String
bash_result (finished out code) = or_exit (prefix 6000 out) code
bash_result timed_out = "(tool timed out)"
bash_result (failed e) = "(error: " <> (e <> ")")

abbrev pub after_gate : World → String → List Effect → Passed → Tooled
after_gate w cmd effects (true, reason) = record {
  result = bash_result (w.bash effects cmd);
  effects = ran cmd ∷ effects;
}
after_gate w cmd effects (false, reason) = record {
  result = "BLOCKED by guard: " <> coalesce reason "None";
  effects = effects;
}

unfoldable pub run_bash : Regex → World → String → List Effect → Option Tooled
run_bash re w cmd effects =
    elim (guard_allows re (w.verdict effects cmd) (w.poll effects) w.ask_timeout cmd) [
      | none ↦ none
      | some p ↦ some (after_gate w cmd effects p)
    ]

abbrev pub read_result : ReadEnd → String
read_result (contents t) = prefix 6000 t
read_result (unreadable e) = "(error: " <> (e <> ")")

abbrev pub read_file : World → Option String → List Effect → Tooled
read_file w none effects = record {
  result = "BLOCKED: path must be relative and stay inside the worktree";
  effects = effects;
}
read_file w (some path) effects = record {
  result = read_result (w.read effects path);
  effects = read_from path ∷ effects;
}

-- The file is opened, and so emptied, before a content that is no text is refused.
abbrev pub write_result : String → Option String → Option String → String
write_result rel none none = "wrote " <> rel
write_result rel (some type_name) none =
    "(error: write() argument must be str, not " <> (type_name <> ")")
write_result rel bad (some e) = "(error: " <> (e <> ")")

abbrev pub write_file : World → ToolArgs → Option String → List Effect → Tooled
write_file w a none effects = record {
  result = "BLOCKED: path must be relative and stay inside the worktree";
  effects = effects;
}
write_file w a (some path) effects = record {
  result = write_result a.path a.bad_content (w.write effects path a.content);
  effects = wrote_to path a.content ∷ effects;
}

-- `base` is the worktree, or the working directory.
unfoldable pub run_tool : Regex → World → String → String → ToolArgs → List Effect → Option Tooled
unfolding run_bash
run_tool re w base name a effects =
    if name == "run_bash"
    then run_bash re w a.command effects
    else if name == "read_file"
    then some (read_file w (safe_path base a.path) effects)
    else if name == "write_file"
    then some (write_file w a (safe_path base a.path) effects)
    else some (record { result = "(unknown tool: " <> (name <> ")"); effects = effects })
