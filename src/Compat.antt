-- ===== src/Compat.antt =====
-- mcp_compat.py: the headers that proxies strip or rewrite are put back before the MCP library sees a request.
-- Header names and values are ASCII texts; `canonical_host`, which urlparse finds in the public URL, is
-- an argument.
pub mod Repaired
use atmcp.Base.{
  String, ◌==◌, Bool, false, not, ◌&&◌, ◌||◌, Option, none, some, List, [], ◌∷◌, if◌then◌else◌,
  contains, coalesce, eqb,
}
use Prim.Native.Char.{Char, code}
use Prim.Native.String
use atmcp.Base.Table.{fetch_one, exists_row, delete, insert}

-- The letter of the second text at the place that the character has in the first, if it has one.
abbrev pub letter : String → String → Char → Char
letter String.[] ls c = c
letter (String.◌∷◌ u us) String.[] c = c
letter (String.◌∷◌ u us) (String.◌∷◌ l ls) c =
    let rest = letter us ls c in if eqb (code u) (code c) then l else rest

-- `bytes.lower`
abbrev pub lower : String → String
lower String.[] = ""
lower (String.◌∷◌ c s) =
    String.◌∷◌ (letter "ABCDEFGHIJKLMNOPQRSTUVWXYZ" "abcdefghijklmnopqrstuvwxyz" c) (lower s)

abbrev pub Header : Type 0
Header = String × String

-- k.lower() == name
abbrev pub is_header : String → Header → Bool
is_header name h = lower h.0 == name

-- `_has_header`
unfoldable pub has_header : List Header → String → Bool
has_header headers name = exists_row (is_header (lower name)) headers

-- `_set_header`
unfoldable pub set_header : List Header → String → String → List Header
set_header headers name value = insert (lower name, value) (delete (is_header (lower name)) headers)

-- next((v for k, v in headers if k.lower() == name), None)
unfoldable pub first_value : List Header → String → Option String
first_value headers name = elim (fetch_one (is_header name) headers) [
  | none ↦ none
  | some h ↦ some h.1
]

pub record Scope : Type 0 where
  pub type : String
  pub method : String
  pub headers : List Header

unfoldable pub with_type : String → List Header → List Header
unfolding has_header set_header
with_type method headers =
    if method == "POST" && not (has_header headers "content-type")
    then set_header headers "content-type" "application/json"
    else headers

-- Both media types stand in the header.
abbrev pub accepts_both : String → Bool
accepts_both accept =
    contains "text/event-stream" (lower accept) && contains "application/json" (lower accept)

unfoldable pub with_accept : List Header → List Header
unfolding set_header first_value
with_accept headers =
    if accepts_both (coalesce (first_value headers "accept") "")
    then headers
    else set_header headers "accept" "application/json, text/event-stream"

abbrev pub is_host : String → Option String → Bool
is_host canonical_host none = false
is_host canonical_host (some host) = host == canonical_host

unfoldable pub with_host : String → List Header → List Header
unfolding set_header first_value
with_host canonical_host headers =
    if is_host canonical_host (first_value headers "host")
    then headers
    else set_header headers "host" canonical_host

-- What the application is called with.
unfoldable pub forwarded : String → Scope → Scope
unfolding with_type with_accept with_host
forwarded canonical_host scope =
    if scope.type == "http"
    then record scope {
      headers = with_host canonical_host (with_accept (with_type scope.method scope.headers));
    }
    else scope
