-- ===== src/Host/Paths/Inside.antt =====
-- scripts/atmcp_workbench_host.py, `_safe_path`: what is accepted is inside the worktree.
use text.Mathlib.TextLemmas.{cons-append, nil-append}
use text.Mathlib.TextEquality.{Char-path}
use Prim.Native.Char.{Char, code}
use Prim.Native.String.{◌++◌ as ◌<>◌}
use atmcp.Base.{
  String, ◌≡◌, refl, subst, ap, sym, ◌∙◌, coalesce, Bool, true, false, not, ◌&&◌, ◌||◌, Option,
  none, some, List, [], ◌∷◌, ◌==◌, arith, Bool-cases, starts_with, eqb, eqb_iff, eq_iff, &&-eq-true,
  inl, inr, ◌⊎◌, if◌then◌else◌, All,
}
use atmcp.Host.Paths.{
  push_char, split_path, join_comps, after_up, add_comp, add_comps, backwards, slashes,
  normal_comps, normpath, ends_slash, join_path, is_within, safe_path,
}

-- A component that does not lead up.
abbrev pub NotUp : String → Type 0
NotUp comp = (comp == "..") ≡ false

abbrev NoSlash : String → Type 0
NoSlash String.[] = Unit
NoSlash (String.◌∷◌ c s) = (eqb (code c) 47 ≡ false) × NoSlash s

-- A component of a normal path: without a slash in it, and not one that leads up.
abbrev Plain : String → Type 0
Plain comp = NoSlash comp × NotUp comp

push_char-NoSlash :
    (c : Char) (comps : List String)
    → eqb (code c) 47 ≡ false
    → All NoSlash comps
    → All NoSlash (push_char c comps)
push_char-NoSlash c [] h a = ((h, tt), tt)
push_char-NoSlash c (p ∷ ps) h a = ((h, a.0), a.1)

split_path-NoSlash : (s : String) → All NoSlash (split_path s)
split_path-NoSlash String.[] = (tt, tt)
split_path-NoSlash (String.◌∷◌ c s) = elim (Bool-cases (eqb (code c) 47)) [
  | inl e ↦ rw e (tt, split_path-NoSlash s)
  | inr e ↦ rw e (push_char-NoSlash c (split_path s) e (split_path-NoSlash s))
]

add_comp-Plain :
    (comp : String) (ls : List String)
    → NoSlash comp
    → All Plain ls
    → All Plain (add_comp true comp ls)
add_comp-Plain comp ls n a = elim (Bool-cases (comp == "" || comp == ".")) [
  | inl e ↦ rw e a
  | inr e ↦ elim (Bool-cases (comp == "..")) [
    | inl up ↦ rw (e, up) (after_up-Plain ls a)
    | inr down ↦ rw (e, down) ((n, down), a)
  ]
]
  where
    after_up-Plain : (ls : List String) → All Plain ls → All Plain (after_up true ls)
    after_up-Plain [] a = tt
    after_up-Plain (l ∷ ls) ((_, down), a) = rw down a

add_comps-Plain :
    (cs ls : List String) → All NoSlash cs → All Plain ls → All Plain (add_comps true cs ls)
add_comps-Plain [] ls n a = a
add_comps-Plain (c ∷ cs) ls n a =
    add_comps-Plain cs (add_comp true c ls) n.1 (add_comp-Plain c ls n.0 a)

backwards-Plain :
    (xs acc : List String) → All Plain xs → All Plain acc → All Plain (backwards xs acc)
backwards-Plain [] acc h a = a
backwards-Plain (x ∷ xs) acc h a = backwards-Plain xs (x ∷ acc) h.1 (h.0, a)

split_path-sep : (s : String) → split_path ("/" <> s) ≡ "" ∷ split_path s
split_path-sep s = ap split_path (cons-append "/" "" s ∙ ap (λ t. String.◌∷◌ "/" t) (nil-append s))

split_path-seps : (s : String) → split_path ("//" <> s) ≡ "" ∷ "" ∷ split_path s
split_path-seps s =
    ap split_path (cons-append "/" "/" s) ∙ ap (λ (l : List String). "" ∷ l) (split_path-sep s)

split_path-slash :
    (comp s : String) → NoSlash comp → split_path (comp <> ("/" <> s)) ≡ comp ∷ split_path s
split_path-slash String.[] s n = rw nil-append (split_path-sep s)
split_path-slash (String.◌∷◌ c comp) s n =
    rw (cons-append c comp ("/" <> s), n.0) (rw (split_path-slash comp s n.1) refl)

split_path-whole : (comp : String) → NoSlash comp → split_path comp ≡ comp ∷ []
split_path-whole String.[] n = refl
split_path-whole (String.◌∷◌ c comp) n = rw n.0 (rw (split_path-whole comp n.1) refl)

-- Splitting what was put together from plain components gives no component that leads up.
join_comps-NotUp :
    (comps : List String) → All Plain comps → All NotUp (split_path (join_comps comps))
join_comps-NotUp [] a = (refl, tt)
join_comps-NotUp (c ∷ []) a = rw (split_path-whole c a.0.0) (a.0.1, tt)
join_comps-NotUp (c ∷ d ∷ cs) a =
    rw (split_path-slash c (join_comps (d ∷ cs)) a.0.0) (a.0.1, join_comps-NotUp (d ∷ cs) a.1)

-- Between its slashes the path has no `..`, and it is the base or the base, a slash and more.
pub record Inside (base path : String) : Type 0 where
  pub no_up : All NotUp (split_path path)
  pub within : (path ≡ base) ⊎ ((rest : String) × (path ≡ (base <> "/") <> rest))

starts_with_lem : (p s : String) → starts_with p s ≡ true → (rest : String) × (s ≡ p <> rest)
starts_with_lem String.[] s h = (s, sym (nil-append s))
starts_with_lem (String.◌∷◌ c p) String.[] h = ground (arith, h)
starts_with_lem (String.◌∷◌ c p) (String.◌∷◌ d s) h =
    let (same, more) = &&-eq-true (eqb (code c) (code d)) (starts_with p s) h in
    let (rest, e) = starts_with_lem p s more in
    let c≡d : c ≡ d = Char-path c d ((eqb_iff (code c) (code d)).0 same) in
    (
      rest,
      ap (λ t. String.◌∷◌ d t) e
          ∙ ap (λ x. String.◌∷◌ x (p <> rest)) (sym c≡d)
          ∙ sym (cons-append c p rest),
    )

is_within_lem :
    (base path : String)
    → is_within base path ≡ true
    → (path ≡ base) ⊎ ((rest : String) × (path ≡ (base <> "/") <> rest))
is_within_lem base path h = elim (Bool-cases (path == base)) [
  | inl e ↦ inl ((eq_iff path base).0 e)
  | inr e ↦ inr (starts_with_lem (base <> "/") path (rw e at h))
]

starts_with-append :
    (base t : String) → starts_with "/" base ≡ true → starts_with "/" (base <> t) ≡ true
starts_with-append String.[] t h = ground arith
starts_with-append (String.◌∷◌ c s) t h = rw cons-append h

absolute-join :
    (base rel : String) → starts_with "/" base ≡ true → starts_with "/" (join_path base rel) ≡ true
absolute-join base rel h = elim (Bool-cases (base == "" || ends_slash base)) [
  | inl e ↦ rw e (starts_with-append base rel h)
  | inr e ↦ rw e (starts_with-append base ("/" <> rel) h)
]

slashes-NotUp :
    (path s : String) → All NotUp (split_path s) → All NotUp (split_path (slashes path <> s))
slashes-NotUp path s a = elim (Bool-cases (starts_with "/" path)) [
  | inr e ↦ rw (e, nil-append) a
  | inl e ↦ elim (Bool-cases (starts_with "//" path && not (starts_with "///" path))) [
    | inl two ↦ rw (e, two) (rw (split_path-seps s) (refl, (refl, a)))
    | inr one ↦ rw (e, one) (rw (split_path-sep s) (refl, a))
  ]
]

-- What `normpath` makes of an absolute path.
normpath-NotUp :
    (path : String) → starts_with "/" path ≡ true → All NotUp (split_path (normpath path))
unfolding normpath
normpath-NotUp path h =
    let plain : All Plain (normal_comps path) = rw h (
      backwards-Plain (add_comps true (split_path path) []) []
        (add_comps-Plain (split_path path) [] (split_path-NoSlash path) tt) tt) in
    elim (Bool-cases (path == "" || (slashes path <> join_comps (normal_comps path)) == "")) [
      | inl e ↦ rw e (refl, tt)
      | inr e ↦ rw e (slashes-NotUp path _ (join_comps-NotUp (normal_comps path) plain))
    ]

-- What a test lets through.
let_through :
    (b : Bool) (x : Option String) {y : String} → (if b then none else x) ≡ some y → x ≡ some y
let_through true x h = ground (arith, h)
let_through false x h = h

kept_if :
    (b : Bool) (x : String) {y : String}
    → (if b then some x else none) ≡ some y
    → (b ≡ true) × (x ≡ y)
kept_if true x h = (refl, ap (λ o. coalesce o x) h)
kept_if false x h = ground (arith, h)

-- A relative path that is accepted against an absolute base stays inside it.
pub safe_path-Inside :
    (base rel path : String)
    → starts_with "/" base ≡ true
    → safe_path base rel ≡ some path
    → Inside base path
unfolding safe_path
safe_path-Inside base rel path absolute h =
    let full = normpath (join_path base rel) in
    let (within, same) =
      kept_if (is_within base full) full (let_through (rel == "" || starts_with "/" rel) _ h) in
    let up = normpath-NotUp (join_path base rel) (absolute-join base rel absolute) in
    subst (Inside base) same (record { no_up = up; within = is_within_lem base full within })
