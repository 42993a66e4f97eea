-- ===== src/Base/Text.antt =====
-- Python's texts as far as the program cuts and searches them: a prefix of n characters, `strip`,
-- `startswith` and `in`; and `str` of a number.
use Prim.Native.Nat.{Ordering, ℕ, zero, suc, ◌+◌, ◌/◌, ◌%◌}
use Prim.Native.Char.{Char, code}
use Prim.Native.String.{compare, String, ◌∷◌, [], ◌++◌}
use mathlib.Core.Path.{◌≡◌, ap, sym, ◌∙◌}
use mathlib.Core.List
use mathlib.Core.List.{List}
use native.Mathlib.Omega.{arith}
use text.Mathlib.TextLemmas.{nil-append, cons-append, append_assoc}
use mathlib.Core.Bool.{Bool, true, false, ◌||◌, ◌&&◌}
use atmcp.Base.Tests.{eqb, leb, ltb, if◌then◌else◌}

-- text[:n]
abbrev pub prefix : ℕ → String → String
prefix n [] = []
prefix zero (c ∷ s) = []
prefix (suc n) (c ∷ s) = c ∷ prefix n s

-- text[n:]
abbrev pub text_from : ℕ → String → String
text_from zero s = s
text_from (suc n) [] = ""
text_from (suc n) (c ∷ s) = text_from n s

-- `str.isspace` of a character
abbrev pub is_space : Char → Bool
is_space c =
    let n = code c in
    (leb 9 n && leb n 13)
    || (leb 28 n && leb n 32)
    || eqb n 133
    || eqb n 160
    || eqb n 5760
    || (leb 8192 n && leb n 8202)
    || eqb n 8232
    || eqb n 8233
    || eqb n 8239
    || eqb n 8287
    || eqb n 12288

abbrev pub strip_left : String → String
strip_left [] = []
strip_left (c ∷ s) = if is_space c then strip_left s else c ∷ s

-- A space is dropped if nothing but spaces follows.
abbrev pub keep_head : Char → String → String
keep_head c [] = if is_space c then [] else c ∷ []
keep_head c (d ∷ s) = c ∷ d ∷ s

abbrev pub strip_right : String → String
strip_right [] = []
strip_right (c ∷ s) = keep_head c (strip_right s)

abbrev pub strip : String → String
strip s = strip_left (strip_right s)

-- The first word of a text, and what follows its first space.
abbrev pub cut_word : String → String × String
cut_word [] = ("", "")
cut_word (c ∷ s) = let (w, r) = cut_word s in if is_space c then ("", s) else (c ∷ w, r)

-- s.split(None, 1), with "" for a part that is not there; the rest begins at the next word.
abbrev pub split_once : String → String × String
split_once s = let (w, r) = cut_word (strip_left s) in (w, strip_left r)

-- a < b, by the characters' numbers
abbrev pub is_before : String → String → Bool
is_before a b = elim (compare a b) [ Ordering.lt ↦ true | _ ↦ false ]

-- s.startswith(p)
abbrev pub starts_with : String → String → Bool
starts_with [] s = true
starts_with (c ∷ p) [] = false
starts_with (c ∷ p) (d ∷ s) = eqb (code c) (code d) && starts_with p s

-- p in s
abbrev pub contains : String → String → Bool
contains p [] = starts_with p []
contains p (c ∷ s) = starts_with p (c ∷ s) || contains p s

abbrev pub digit : ℕ → String
digit n =
    if eqb n 0
    then "0"
    else if eqb n 1
    then "1"
    else if eqb n 2
    then "2"
    else if eqb n 3
    then "3"
    else if eqb n 4
    then "4"
    else if eqb n 5
    then "5"
    else if eqb n 6
    then "6"
    else if eqb n 7
    then "7"
    else if eqb n 8
    then "8"
    else "9"

-- The digits of `n` before `tail`. A number has fewer digits than it counts, so that the fuel n + 1
-- is enough.
digits : ℕ → ℕ → String → String
digits zero n tail = tail
digits (suc fuel) n tail =
    let rest = digits fuel (n / 10) (digit (n % 10) ++ tail) in
    if ltb n 10 then digit n ++ tail else rest

unfoldable pub str_ℕ : ℕ → String
unfolding digits
str_ℕ n = digits (n + 1) n ""

-- len(s)
abbrev pub len : String → ℕ
len [] = 0
len (c ∷ s) = suc (len s)

-- "".join(texts)
abbrev pub concat : List String → String
concat List.[] = ""
concat (List.◌∷◌ t ts) = t ++ concat ts

pub len-append : (a b : String) → len (a ++ b) ≡ len a + len b
len-append [] b = rw nil-append (omega arith)
len-append (x ∷ a) b = rw cons-append (omega (arith, len-append a b))

pub concat-append : (xs ys : List String) → concat (List.◌++◌ xs ys) ≡ concat xs ++ concat ys
concat-append List.[] ys = sym (nil-append (concat ys))
concat-append (List.◌∷◌ x xs) ys =
    ap (λ t. x ++ t) (concat-append xs ys) ∙ sym (append_assoc x (concat xs) (concat ys))
