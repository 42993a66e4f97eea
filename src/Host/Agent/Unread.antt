-- ===== src/Host/Agent/Unread.antt =====
-- scripts/atmcp_workbench_host.py: arguments of a tool call that its tool cannot read.
use atmcp.Base.{
  String, ◌==◌, ◌≡◌, refl, Bool, true, false, none, some, Option, ◌⊎◌, inl, inr, Bool-cases, arith,
  eq_iff,
}
use atmcp.Host.Tools.{
  Field, absent, text, value, Loaded, not_json, no_object, object, is_file_tool, read_args,
  read_command, read_path,
}

abbrev pub IsFileTool : String → Type 0
IsFileTool name = (name ≡ "read_file") ⊎ (name ≡ "write_file")

-- The arguments are JSON but no object; or the command of `run_bash` is there and no text; or the path of a
-- file tool is there, true and no text.
abbrev pub Unread : String → Loaded → Type 0
Unread name not_json = ⊥
Unread name (no_object dump) = (name ≡ "run_bash") ⊎ IsFileTool name
Unread name (object command path content dump) =
    ((name ≡ "run_bash")
      × ((as_bool : Bool) × (type_name : String) × (command ≡ value as_bool type_name)))
    ⊎ (IsFileTool name × ((type_name : String) × (path ≡ value true type_name)))

no_command :
    (f : Field)
    → read_command f ≡ none
    → (as_bool : Bool) × (type_name : String) × (f ≡ value as_bool type_name)
no_command absent h = ground (arith, h)
no_command (text s) h = ground (arith, h)
no_command (value as_bool type_name) h = (as_bool, type_name, refl)

no_path : (f : Field) → read_path f ≡ none → (type_name : String) × (f ≡ value true type_name)
no_path absent h = ground (arith, h)
no_path (text s) h = ground (arith, h)
no_path (value true type_name) h = (type_name, refl)
no_path (value false type_name) h = ground (arith, h)

file_tool : (name : String) → is_file_tool name ≡ true → IsFileTool name
file_tool name h = elim (Bool-cases (name == "read_file")) [
  | inl e ↦ inl ((eq_iff name "read_file").0 e)
  | inr e ↦ inr ((eq_iff name "write_file").0 (rw e at h))
]

none_of :
    {A B : Type 0} (o : Option A) (f : A → B)
    → elim o as (λ x. Option B) [ none ↦ none | some a ↦ some (f a) ] ≡ none
    → o ≡ none
none_of none f h = refl
none_of (some a) f h = ground (arith, h)

-- What `read_args` refuses.
pub read_args-Unread : (name : String) (l : Loaded) → read_args name l ≡ none → Unread name l
unfolding read_args
read_args-Unread name not_json h = ground (arith, h)
read_args-Unread name (no_object dump) h = elim (Bool-cases (name == "run_bash")) [
  | inl e ↦ inl ((eq_iff name "run_bash").0 e)
  | inr e ↦ elim (Bool-cases (is_file_tool name)) [
    | inl file ↦ inr (file_tool name file)
    | inr other ↦ ground (arith, (rw (e, other) at h))
  ]
]
read_args-Unread name (object command path content dump) h =
    elim (Bool-cases (name == "run_bash")) [
      | inl e ↦ inl (
        (eq_iff name "run_bash").0 e,
        no_command command (none_of (read_command command) _ (rw e at h)),
      )
      | inr e ↦ elim (Bool-cases (is_file_tool name)) [
        | inl file ↦
            inr (file_tool name file, no_path path (none_of (read_path path) _ (rw (e, file) at h)))
        | inr other ↦ ground (arith, (rw (e, other) at h))
      ]
    ]
