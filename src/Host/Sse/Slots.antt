-- ===== src/Host/Sse/Slots.antt =====
-- scripts/atmcp_workbench_host.py: how the tool calls of a round are put together.
use text.Mathlib.TextLemmas.{nil-append, append-nil, append_assoc}
use atmcp.Base.{
  ℕ, ◌<◌, eqb, ltb, String, ◌≡◌, refl, ap, sym, subst, ◌∙◌, true, false, List, [], ◌∷◌,
  if◌then◌else◌, coalesce, All, All-append, All-map, arith, Bool-cases, inl, inr,
}
use Prim.Native.String.{◌++◌ as ◌<>◌}
use atmcp.Base.Table.{exists_row, update, insert, place, order_by}
use atmcp.Base.Table.Order.{All-place, All-order_by}
use atmcp.Host.Sse.{
  ToolDelta, SseLine, ignored, done_mark, object, Slot, has_index, new_slot, fill, put_delta,
  put_deltas, Heard, hear, read_stream, lower_index,
}

-- The arguments of the calls at an index, together.
abbrev pub arguments_at : ℕ → List Slot → String
arguments_at i [] = ""
arguments_at i (s ∷ ss) = (if eqb s.index i then s.arguments else "") <> arguments_at i ss

-- The fragments of the arguments that the stream brings for an index, before its end.
abbrev pub fragment : ℕ → ToolDelta → String
fragment i d = if eqb d.index i then coalesce d.arguments "" else ""

abbrev pub fragments : ℕ → List ToolDelta → String
fragments i [] = ""
fragments i (d ∷ ds) = fragment i d <> fragments i ds

abbrev pub streamed_at : ℕ → List SseLine → String
streamed_at i [] = ""
streamed_at i (ignored ∷ ls) = streamed_at i ls
streamed_at i (done_mark ∷ ls) = ""
streamed_at i (object usage content calls ∷ ls) = fragments i calls <> streamed_at i ls

abbrev Apart : ℕ → List Slot → Type 0
Apart i slots = All (λ s. eqb s.index i ≡ false) slots

abbrev Distinct : List Slot → Type 0
Distinct [] = Unit
Distinct (s ∷ ss) = Apart s.index ss × Distinct ss

-- The calls go up by their indices, so that there is one for each.
abbrev pub Ascending : List Slot → Type 0
Ascending [] = Unit
Ascending (s ∷ ss) = All (λ b. s.index < b.index) ss × Ascending ss

place-Ascending :
    (r : Slot) (bs : List Slot)
    → Apart r.index bs
    → Ascending bs
    → Ascending (place lower_index r bs)
place-Ascending r [] apart up = (tt, tt)
place-Ascending r (b ∷ bs) apart up = elim (Bool-cases (ltb b.index r.index)) [
  | inl e ↦ rw e (
    All-place (λ x. b.index < x.index) lower_index r bs (ground arith) up.0,
    place-Ascending r bs apart.1 up.1,
  )
  | inr e ↦
      let below : r.index < b.index = ground (arith, apart.0) in
      rw e ((below, All-map bs (λ x h. omega (arith, h, below)) up.0), up)
]

pub order_by-Ascending :
    (slots : List Slot) → Distinct slots → Ascending (order_by lower_index slots)
order_by-Ascending [] d = tt
order_by-Ascending (s ∷ ss) d =
    place-Ascending s (order_by lower_index ss)
      (All-order_by (λ x. eqb x.index s.index ≡ false) lower_index ss d.0)
      (order_by-Ascending ss d.1)

module _ (i : ℕ) where
  arguments-place :
      (r : Slot) (bs : List Slot)
      → arguments_at i (place lower_index r bs) ≡ arguments_at i (r ∷ bs)
  arguments-place r [] = refl
  arguments-place r (b ∷ bs) = elim (Bool-cases (ltb b.index r.index)) [
    | inl e ↦ elim (Bool-cases (eqb b.index i)) [
      | inl here ↦
          let other : eqb r.index i ≡ false = ground arith in
          rw (e, arguments-place r bs, here, other, nil-append, nil-append) refl
      | inr there ↦ rw (e, arguments-place r bs, there, nil-append, nil-append) refl
    ]
    | inr e ↦ rw e refl
  ]

  pub arguments-order_by :
      (slots : List Slot) → arguments_at i (order_by lower_index slots) ≡ arguments_at i slots
  arguments-order_by [] = refl
  arguments-order_by (s ∷ ss) =
      arguments-place s (order_by lower_index ss)
      ∙ ap (λ t. (if eqb s.index i then s.arguments else "") <> t) (arguments-order_by ss)

  arguments-insert :
      (s : Slot) (ss : List Slot)
      → s.arguments ≡ ""
      → arguments_at i (insert s ss) ≡ arguments_at i ss
  arguments-insert s [] e = rw e (elim (Bool-cases (eqb s.index i)) [
    | inl h ↦ rw (h, nil-append) refl
    | inr h ↦ rw (h, nil-append) refl
  ])
  arguments-insert s (x ∷ ss) e =
      ap (λ t. (if eqb x.index i then x.arguments else "") <> t) (arguments-insert s ss e)

  arguments-Apart : (ss : List Slot) → Apart i ss → arguments_at i ss ≡ ""
  arguments-Apart [] a = refl
  arguments-Apart (s ∷ ss) a = rw (a.0, nil-append) (arguments-Apart ss a.1)

-- `with_slot` and `fill` keep the indices apart.
insert-Apart :
    (j : ℕ) (s : Slot) (ss : List Slot) → eqb s.index j ≡ false → Apart j ss → Apart j (insert s ss)
insert-Apart j s ss e a = All-append (λ x. eqb x.index j ≡ false) ss (s ∷ []) a (e, tt)

insert-Distinct :
    (s : Slot) (ss : List Slot)
    → exists_row (has_index s.index) ss ≡ false
    → Distinct ss
    → Distinct (insert s ss)
insert-Distinct s [] e d = (tt, tt)
insert-Distinct s (x ∷ ss) e d = (
  insert-Apart x.index s ss (ground (arith, e)) d.0,
  insert-Distinct s ss (ground (arith, e)) d.1,
)

exists_row-insert :
    (s : Slot) (ss : List Slot) → exists_row (has_index s.index) (insert s ss) ≡ true
exists_row-insert s [] = ground arith
exists_row-insert s (x ∷ ss) = ground (arith, exists_row-insert s ss)

module _ (d : ToolDelta) where
  abbrev filled : List Slot → List Slot
  filled ss = update (has_index d.index) (fill d) ss

  filled-Apart : (j : ℕ) (ss : List Slot) → Apart j ss → Apart j (filled ss)
  filled-Apart j [] a = tt
  filled-Apart j (s ∷ ss) a = elim (Bool-cases (eqb s.index d.index)) [
    | inl e ↦ rw e (a.0, filled-Apart j ss a.1)
    | inr e ↦ rw e (a.0, filled-Apart j ss a.1)
  ]

  filled-Distinct : (ss : List Slot) → Distinct ss → Distinct (filled ss)
  filled-Distinct [] a = tt
  filled-Distinct (s ∷ ss) a = elim (Bool-cases (eqb s.index d.index)) [
    | inl e ↦ rw e (filled-Apart s.index ss a.0, filled-Distinct ss a.1)
    | inr e ↦ rw e (filled-Apart s.index ss a.0, filled-Distinct ss a.1)
  ]

  filled-others : (ss : List Slot) → Apart d.index ss → filled ss ≡ ss
  filled-others [] a = refl
  filled-others (s ∷ ss) a = rw a.0 (ap (λ l. s ∷ l) (filled-others ss a.1))

  arguments-filled :
      (i : ℕ) (ss : List Slot)
      → Distinct ss
      → exists_row (has_index d.index) ss ≡ true
      → arguments_at i (filled ss) ≡ arguments_at i ss <> fragment i d
  arguments-filled i [] a e = ground (arith, e)
  arguments-filled i (s ∷ ss) a e = elim (Bool-cases (eqb s.index d.index)) [
    | inl mine ↦
        let same : s.index ≡ d.index = ground (arith, mine) in
        let others = filled-others ss (subst (λ j. Apart j ss) same a.0) in
        elim (Bool-cases (eqb d.index i)) [
          | inl here ↦
              let at : eqb s.index i ≡ true = ground (arith, mine, here) in
              let same_i : s.index ≡ i = ground (arith, at) in
              let none_left = arguments-Apart i ss (subst (λ j. Apart j ss) same_i a.0) in
              rw (mine, at, here, others, none_left, append-nil, append-nil) refl
          | inr there ↦
              let away : eqb s.index i ≡ false = ground (arith, mine, there) in
              rw (mine, away, there, others) (sym (append-nil ("" <> arguments_at i ss)))
        ]
    | inr other ↦
        let rest = arguments-filled i ss a.1 (ground (arith, e)) in
        rw (other, rest)
          (sym (
            append_assoc (if eqb s.index i then s.arguments else "") (arguments_at i ss)
              (fragment i d)))
  ]

  put-Distinct : (ss : List Slot) → Distinct ss → Distinct (put_delta d ss)
  put-Distinct ss a = elim (Bool-cases (exists_row (has_index d.index) ss)) [
    | inl e ↦ rw e (filled-Distinct ss a)
    | inr e ↦
        rw e (
          filled-Distinct (insert (new_slot d.index) ss)
            (insert-Distinct (new_slot d.index) ss e a))
  ]

  arguments-put :
      (i : ℕ) (ss : List Slot)
      → Distinct ss
      → arguments_at i (put_delta d ss) ≡ arguments_at i ss <> fragment i d
  arguments-put i ss a = elim (Bool-cases (exists_row (has_index d.index) ss)) [
    | inl e ↦ rw e (arguments-filled i ss a e)
    | inr e ↦
        let fresh = new_slot d.index in
        rw e (
          arguments-filled i (insert fresh ss) (insert-Distinct fresh ss e a)
            (exists_row-insert fresh ss)
          ∙ ap (λ t. t <> fragment i d) (arguments-insert i fresh ss refl))
  ]

put_deltas-Distinct :
    (ds : List ToolDelta) (ss : List Slot) → Distinct ss → Distinct (put_deltas ds ss)
put_deltas-Distinct [] ss a = a
put_deltas-Distinct (d ∷ ds) ss a = put_deltas-Distinct ds (put_delta d ss) (put-Distinct d ss a)

arguments-put_deltas :
    (i : ℕ) (ds : List ToolDelta) (ss : List Slot)
    → Distinct ss
    → arguments_at i (put_deltas ds ss) ≡ arguments_at i ss <> fragments i ds
arguments-put_deltas i [] ss a = sym (append-nil (arguments_at i ss))
arguments-put_deltas i (d ∷ ds) ss a =
    arguments-put_deltas i ds (put_delta d ss) (put-Distinct d ss a)
    ∙ ap (λ t. t <> fragments i ds) (arguments-put d i ss a)
    ∙ append_assoc (arguments_at i ss) (fragment i d) (fragments i ds)

pub read_stream-Distinct :
    (ls : List SseLine) (h : Heard) → Distinct h.slots → Distinct (read_stream ls h).slots
read_stream-Distinct [] h a = a
read_stream-Distinct (ignored ∷ ls) h a = read_stream-Distinct ls h a
read_stream-Distinct (done_mark ∷ ls) h a = a
read_stream-Distinct (object usage content calls ∷ ls) h a =
    read_stream-Distinct ls (hear usage content calls h) (put_deltas-Distinct calls h.slots a)

pub arguments-read_stream :
    (i : ℕ) (ls : List SseLine) (h : Heard)
    → Distinct h.slots
    → arguments_at i (read_stream ls h).slots ≡ arguments_at i h.slots <> streamed_at i ls
arguments-read_stream i [] h a = sym (append-nil (arguments_at i h.slots))
arguments-read_stream i (ignored ∷ ls) h a = arguments-read_stream i ls h a
arguments-read_stream i (done_mark ∷ ls) h a = sym (append-nil (arguments_at i h.slots))
arguments-read_stream i (object usage content calls ∷ ls) h a =
    arguments-read_stream i ls (hear usage content calls h) (put_deltas-Distinct calls h.slots a)
    ∙ ap (λ t. t <> streamed_at i ls) (arguments-put_deltas i calls h.slots a)
    ∙ append_assoc (arguments_at i h.slots) (fragments i calls) (streamed_at i ls)
