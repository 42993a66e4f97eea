-- ===== src/Host/Paths.antt =====
-- scripts/atmcp_workbench_host.py, `_safe_path`, with `os.path.join` and `os.path.normpath` of POSIX: a
-- file tool reaches no path outside the worktree.
pub mod Inside
use text.Mathlib.TextLemmas.{cons-append, nil-append}
use atmcp.Base.{
  String, ◌≡◌, refl, subst, ap, ◌∙◌, coalesce, Bool, true, false, not, ◌&&◌, ◌||◌, Option, none,
  some, List, [], ◌∷◌, ◌==◌, arith, Bool-cases, starts_with, eqb, inl, inr, if◌then◌else◌, All,
}
use Prim.Native.Char.{Char, code}
use Prim.Native.String.{◌++◌ as ◌<>◌}

-- The first component grows by a character.
abbrev pub push_char : Char → List String → List String
push_char c [] = String.◌∷◌ c "" ∷ []
push_char c (p ∷ ps) = String.◌∷◌ c p ∷ ps

-- path.split("/")
abbrev pub split_path : String → List String
split_path String.[] = "" ∷ []
split_path (String.◌∷◌ c s) =
    let rest = split_path s in if eqb (code c) 47 then "" ∷ rest else push_char c rest

-- "/".join(comps)
abbrev pub join_comps : List String → String
join_comps [] = ""
join_comps (c ∷ []) = c
join_comps (c ∷ d ∷ cs) = c <> ("/" <> join_comps (d ∷ cs))

-- The components so far, the last one first.
abbrev pub after_up : Bool → List String → List String
after_up absolute [] = if absolute then [] else ".." ∷ []
after_up absolute (l ∷ ls) = if l == ".." then ".." ∷ l ∷ ls else ls

abbrev pub add_comp : Bool → String → List String → List String
add_comp absolute comp ls =
    if comp == "" || comp == "."
    then ls
    else if comp == ".."
    then after_up absolute ls
    else comp ∷ ls

abbrev pub add_comps : Bool → List String → List String → List String
add_comps absolute [] ls = ls
add_comps absolute (c ∷ cs) ls = add_comps absolute cs (add_comp absolute c ls)

abbrev pub backwards : List String → List String → List String
backwards [] acc = acc
backwards (x ∷ xs) acc = backwards xs (x ∷ acc)

-- One slash in front, or two if there are exactly two.
abbrev pub slashes : String → String
slashes path =
    if starts_with "/" path
    then if starts_with "//" path && not (starts_with "///" path) then "//" else "/"
    else ""

abbrev pub normal_comps : String → List String
normal_comps path = backwards (add_comps (starts_with "/" path) (split_path path) []) []

-- `os.path.normpath`
unfoldable pub normpath : String → String
normpath path =
    let full = slashes path <> join_comps (normal_comps path) in
    if path == "" || full == "" then "." else full

abbrev pub ends_slash : String → Bool
ends_slash String.[] = false
ends_slash (String.◌∷◌ c String.[]) = eqb (code c) 47
ends_slash (String.◌∷◌ c (String.◌∷◌ d s)) = ends_slash (String.◌∷◌ d s)

-- `os.path.join` with a relative second path
abbrev pub join_path : String → String → String
join_path base rel = if base == "" || ends_slash base then base <> rel else base <> ("/" <> rel)

abbrev pub is_within : String → String → Bool
is_within base full = full == base || starts_with (base <> "/") full

unfoldable pub safe_path : String → String → Option String
unfolding normpath
safe_path base rel =
    if rel == "" || starts_with "/" rel
    then none
    else let full = normpath (join_path base rel) in if is_within base full then some full else none
