-- ===== src/Compat/Repaired.antt =====
-- mcp_compat.py: what the application gets, and that a second pass changes nothing.
use atmcp.Base.{
  String, ◌==◌, ◌≡◌, refl, ap, ◌∙◌, subst, sym, Bool, true, false, not, ◌&&◌, ◌||◌, Option, none,
  some, List, [], ◌∷◌, coalesce, arith, Bool-cases, inl, inr, eq_iff, eq_refl,
}
use atmcp.Base.Table.{fetch_one, exists_row, delete, insert}
use atmcp.Compat.{
  lower, Header, is_header, has_header, set_header, first_value, Scope, with_type, accepts_both,
  with_accept, is_host, with_host, forwarded,
}

module _ {R : Type 0} (p q : R → Bool) where
  fetch_one-replaced :
      (r : R) (rs : List R) → p r ≡ true → fetch_one p (insert r (delete p rs)) ≡ some r
  fetch_one-replaced r [] h = rw h refl
  fetch_one-replaced r (x ∷ rs) h = elim (Bool-cases (p x)) [
    | inl e ↦ rw e (fetch_one-replaced r rs h)
    | inr e ↦ rw (e, e) (fetch_one-replaced r rs h)
  ]

  exists_row-replaced :
      (r : R) (rs : List R) → p r ≡ true → exists_row p (insert r (delete p rs)) ≡ true
  exists_row-replaced r [] h = rw h refl
  exists_row-replaced r (x ∷ rs) h = elim (Bool-cases (p x)) [
    | inl e ↦ rw e (exists_row-replaced r rs h)
    | inr e ↦ rw (e, e) (exists_row-replaced r rs h)
  ]

  -- Rows of the one kind are none of the other.
  module _ (apart : (x : R) → p x ≡ true → q x ≡ false) where
    fetch_one-kept :
        (r : R) (rs : List R) → p r ≡ true → fetch_one q (insert r (delete p rs)) ≡ fetch_one q rs
    fetch_one-kept r [] h = rw (apart r h) refl
    fetch_one-kept r (x ∷ rs) h = elim (Bool-cases (p x)) [
      | inl e ↦ rw (e, apart x e) (fetch_one-kept r rs h)
      | inr e ↦ rw (e, fetch_one-kept r rs h) refl
    ]

    exists_row-kept :
        (r : R) (rs : List R) → p r ≡ true → exists_row q (insert r (delete p rs)) ≡ exists_row q rs
    exists_row-kept r [] h = rw (apart r h) refl
    exists_row-kept r (x ∷ rs) h = elim (Bool-cases (p x)) [
      | inl e ↦ rw (e, apart x e) (exists_row-kept r rs h)
      | inr e ↦ rw (e, exists_row-kept r rs h) refl
    ]

apart_by :
    (a b : String) → (a == b) ≡ false → (h : Header) → is_header a h ≡ true → is_header b h ≡ false
apart_by a b other h e = subst (λ x. (x == b) ≡ false) (sym ((eq_iff (lower h.0) a).0 e)) other

-- A header that is set is the first of its name; another header is as it was.
module _ (n v : String) (hs : List Header) (mine : is_header (lower n) (lower n, v) ≡ true) where
  first_value-set_header : first_value (set_header hs n v) (lower n) ≡ some v
  unfolding set_header first_value
  first_value-set_header =
      ap (λ o. elim o [ none ↦ none | some h ↦ some h.1 ])
        (fetch_one-replaced (is_header (lower n)) (is_header (lower n)) (lower n, v) hs mine)

  has_header-set_header : has_header (set_header hs n v) n ≡ true
  unfolding set_header has_header
  has_header-set_header =
      exists_row-replaced (is_header (lower n)) (is_header (lower n)) (lower n, v) hs mine

  module _ (m : String) (other : (lower n == m) ≡ false) where
    first_value-kept : first_value (set_header hs n v) m ≡ first_value hs m
    unfolding set_header first_value
    first_value-kept =
        ap (λ o. elim o [ none ↦ none | some h ↦ some h.1 ])
          (fetch_one-kept (is_header (lower n)) (is_header m) (apart_by (lower n) m other)
            (lower n, v) hs mine)

  has_header-kept :
      (m : String)
      → (lower n == lower m) ≡ false
      → has_header (set_header hs n v) m ≡ has_header hs m
  unfolding set_header has_header
  has_header-kept m other =
      exists_row-kept (is_header (lower n)) (is_header (lower m))
        (apart_by (lower n) (lower m) other) (lower n, v) hs mine

-- What the middleware wants of the headers.
pub record Repaired (canonical_host method : String) (headers : List Header) : Type 0 where
  pub typed : (not (method == "POST") || has_header headers "content-type") ≡ true
  pub accepting : accepts_both (coalesce (first_value headers "accept") "") ≡ true
  pub hosted : first_value headers "host" ≡ some canonical_host

is_host_sound : (c : String) (o : Option String) → is_host c o ≡ true → o ≡ some c
is_host_sound c none h = ground (arith, h)
is_host_sound c (some x) h = ap some ((eq_iff x c).0 h)

module _ (c method : String) where
  with_type-typed :
      (hs : List Header)
      → (not (method == "POST") || has_header (with_type method hs) "content-type") ≡ true
  unfolding with_type
  with_type-typed hs = elim (Bool-cases (method == "POST" && not (has_header hs "content-type"))) [
    | inl e ↦ rw (e, has_header-set_header "content-type" "application/json" hs refl) (ground arith)
    | inr e ↦ rw e (ground (arith, e))
  ]

  with_accept-accepting :
      (hs : List Header)
      → (not (method == "POST") || has_header hs "content-type") ≡ true
      → ((not (method == "POST") || has_header (with_accept hs) "content-type") ≡ true)
        × (accepts_both (coalesce (first_value (with_accept hs) "accept") "") ≡ true)
  unfolding with_accept
  with_accept-accepting hs t =
      elim (Bool-cases (accepts_both (coalesce (first_value hs "accept") ""))) [
        | inl e ↦ rw e (t, e)
        | inr e ↦ rw e (
          rw
              (has_header-kept "accept" "application/json, text/event-stream" hs refl "content-type"
                refl)
              t,
          rw (first_value-set_header "accept" "application/json, text/event-stream" hs refl) refl,
        )
      ]

  with_host-Repaired :
      (hs : List Header)
      → (not (method == "POST") || has_header hs "content-type") ≡ true
      → accepts_both (coalesce (first_value hs "accept") "") ≡ true
      → Repaired c method (with_host c hs)
  unfolding with_host
  with_host-Repaired hs t a = elim (Bool-cases (is_host c (first_value hs "host"))) [
    | inl e ↦
        rw e
          (record { typed = t; accepting = a; hosted = is_host_sound c (first_value hs "host") e })
    | inr e ↦ rw e (record {
      typed = rw (has_header-kept "host" c hs refl "content-type" refl) t;
      accepting = rw (first_value-kept "host" c hs refl "accept" refl) a;
      hosted = first_value-set_header "host" c hs refl;
    })
  ]

  -- Headers that are as they should be are left alone.
  with_host-with_accept :
      (hs : List Header)
      → Repaired c method hs
      → with_host c (with_accept (with_type method hs)) ≡ hs
  unfolding with_type with_accept with_host
  with_host-with_accept hs r =
      let typed : (method == "POST" && not (has_header hs "content-type")) ≡ false =
        ground (arith, r.typed) in
      let hosted : is_host c (first_value hs "host") ≡ true = rw r.hosted (eq_refl c) in
      rw (typed, r.accepting, hosted) refl

-- A header of another name than the three is as it was.
abbrev pub IsOtherName : String → Type 0
IsOtherName m =
    (("content-type" == m) ≡ false) × ((("accept" == m) ≡ false) × (("host" == m) ≡ false))

module _ (m : String) (other : IsOtherName m) where
  first_value-with_type :
      (method : String) (hs : List Header) → first_value (with_type method hs) m ≡ first_value hs m
  unfolding with_type
  first_value-with_type method hs =
      elim (Bool-cases (method == "POST" && not (has_header hs "content-type"))) [
        | inl e ↦ rw e (first_value-kept "content-type" "application/json" hs refl m other.0)
        | inr e ↦ rw e refl
      ]

  first_value-with_accept : (hs : List Header) → first_value (with_accept hs) m ≡ first_value hs m
  unfolding with_accept
  first_value-with_accept hs =
      elim (Bool-cases (accepts_both (coalesce (first_value hs "accept") ""))) [
        | inl e ↦ rw e refl
        | inr e ↦
            rw e
              (first_value-kept "accept" "application/json, text/event-stream" hs refl m other.1.0)
      ]

  first_value-with_host :
      (c : String) (hs : List Header) → first_value (with_host c hs) m ≡ first_value hs m
  unfolding with_host
  first_value-with_host c hs = elim (Bool-cases (is_host c (first_value hs "host"))) [
    | inl e ↦ rw e refl
    | inr e ↦ rw e (first_value-kept "host" c hs refl m other.1.1)
  ]

  first_value-forwarded :
      (c : String) (scope : Scope)
      → first_value (forwarded c scope).headers m ≡ first_value scope.headers m
  unfolding forwarded
  first_value-forwarded c scope = elim (Bool-cases (scope.type == "http")) [
    | inl e ↦
        let typed = with_type scope.method scope.headers in
        rw e (
          first_value-with_host c (with_accept typed)
          ∙ first_value-with_accept typed
          ∙ first_value-with_type scope.method scope.headers)
    | inr e ↦ rw e refl
  ]

-- An HTTP request reaches the application with a content type if it is a POST, with an Accept header that
-- has both media types, and with the canonical host as its first Host header; any other header is the
-- one that it was. A request that went through the middleware goes through it again unchanged,
-- and what is no HTTP request is passed on as it is.
pub forwarded_lem :
    (canonical_host : String) (scope : Scope)
    → let after = forwarded canonical_host scope in
      (forwarded canonical_host after ≡ after)
      × ((scope.type == "http") ≡ false → after ≡ scope)
      × ((m : String) → IsOtherName m → first_value after.headers m ≡ first_value scope.headers m)
      × ((scope.type == "http") ≡ true → Repaired canonical_host scope.method after.headers)
unfolding forwarded
forwarded_lem c scope = elim (Bool-cases (scope.type == "http")) [
  | inr e ↦ (
    rw (e, e) refl,
    λ no. rw e refl,
    (λ m other. first_value-forwarded m other c scope),
    λ yes. ground (arith, yes, e),
  )
  | inl e ↦
      let (t, a) =
        with_accept-accepting c scope.method (with_type scope.method scope.headers)
          (with_type-typed c scope.method scope.headers) in
      let r =
        with_host-Repaired c scope.method (with_accept (with_type scope.method scope.headers)) t
          a in
      let same = with_host-with_accept c scope.method _ r in
      (
        rw (e, e, same) refl,
        λ no. ground (arith, no, e),
        (λ m other. first_value-forwarded m other c scope),
        λ yes. rw e r,
      )
]
