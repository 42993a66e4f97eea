-- ===== src/Usage/Totals.antt =====
-- services/usage.py: the totals of a team, by agents, are the sums over its rows.
use native.Mathlib.Nat.{add_assoc}
use atmcp.Base.{
  ℕ, ◌+◌, String, ◌==◌, ◌≡◌, refl, ap, sym, subst, ◌∙◌, Bool, true, false, List, [], ◌∷◌,
  if◌then◌else◌, All, arith, Bool-cases, inl, inr, eq_iff, eq_refl,
}
use atmcp.Base.Table.{select, exists_row, insert}
use atmcp.Schema.{UsageEvent}
use atmcp.Usage.{Floats}
use atmcp.Usage.Meters.{
  sum, tokens, Meter, is_by, groups, is_within, window, meter, zero_meter, add_meter, agent_meter,
  add_agents,
}

module _ (g : UsageEvent → ℕ) where
  -- The sums of the agents' rows, together.
  abbrev by_agent : List String → List UsageEvent → ℕ
  by_agent [] rows = 0
  by_agent (a ∷ as_) rows = sum g (select (is_by a) rows) + by_agent as_ rows

abbrev Absent : String → List String → Type 0
Absent a as_ = All (λ b. (a == b) ≡ false) as_

abbrev Once : String → List String → Type 0
Once a [] = false ≡ true
Once a (b ∷ bs) = if a == b then Absent a bs else Once a bs

groups-Absent :
    (a : String) (rows : List UsageEvent)
    → exists_row (is_by a) rows ≡ false
    → Absent a (groups rows)
groups-Absent a [] h = tt
groups-Absent a (e ∷ es) h = elim (Bool-cases (exists_row (is_by e.agent_id) es)) [
  | inl seen ↦ rw seen (groups-Absent a es (ground (arith, h)))
  | inr new ↦ rw new (
    ground (arith, h, eq_iff a e.agent_id, eq_iff e.agent_id a),
    groups-Absent a es (ground (arith, h)),
  )
]

groups-Once :
    (a : String) (rows : List UsageEvent) → exists_row (is_by a) rows ≡ true → Once a (groups rows)
groups-Once a [] h = ground (arith, h)
groups-Once a (e ∷ es) h = elim (Bool-cases (e.agent_id == a)) [
  | inl same ↦
      let mine : e.agent_id ≡ a = (eq_iff e.agent_id a).0 same in
      elim (Bool-cases (exists_row (is_by e.agent_id) es)) [
        | inl seen ↦
            rw seen (groups-Once a es (subst (λ x. exists_row (is_by x) es ≡ true) mine seen))
        | inr new ↦
            let here : (a == e.agent_id) ≡ true = (eq_iff a e.agent_id).1 (sym mine) in
            rw (new, here)
              (groups-Absent a es (subst (λ x. exists_row (is_by x) es ≡ false) mine new))
      ]
  | inr other ↦
      let there : (a == e.agent_id) ≡ false =
        ground (arith, other, eq_iff a e.agent_id, eq_iff e.agent_id a) in
      let later = groups-Once a es (ground (arith, h, other)) in
      elim (Bool-cases (exists_row (is_by e.agent_id) es)) [
        | inl seen ↦ rw seen later
        | inr new ↦ rw (new, there) later
      ]
]

module _ (g : UsageEvent → ℕ) where
  sum-none :
      (a : String) (rows : List UsageEvent)
      → exists_row (is_by a) rows ≡ false
      → sum g (select (is_by a) rows) ≡ 0
  sum-none a [] h = refl
  sum-none a (e ∷ es) h =
      let out : is_by a e ≡ false = ground (arith, h) in rw out (sum-none a es (ground (arith, h)))

  by_agent-Absent :
      (r : UsageEvent) (as_ : List String) (rs : List UsageEvent)
      → Absent r.agent_id as_
      → by_agent g as_ (r ∷ rs) ≡ by_agent g as_ rs
  by_agent-Absent r [] rs h = refl
  by_agent-Absent r (a ∷ as_) rs h = rw (h.0, by_agent-Absent r as_ rs h.1) refl

  by_agent-Once :
      (r : UsageEvent) (as_ : List String) (rs : List UsageEvent)
      → Once r.agent_id as_
      → by_agent g as_ (r ∷ rs) ≡ g r + by_agent g as_ rs
  by_agent-Once r [] rs h = ground (arith, h)
  by_agent-Once r (a ∷ as_) rs h = elim (Bool-cases (r.agent_id == a)) [
    | inl e ↦
        let rest : Absent r.agent_id as_ = rw e at h in
        rw (e, by_agent-Absent r as_ rs rest)
          (add_assoc (g r) (sum g (select (is_by a) rs)) (by_agent g as_ rs))
    | inr e ↦
        let rest : Once r.agent_id as_ = rw e at h in
        rw (e, by_agent-Once r as_ rs rest) (omega arith)
  ]

  by_agent-groups : (rows : List UsageEvent) → by_agent g (groups rows) rows ≡ sum g rows
  by_agent-groups [] = refl
  by_agent-groups (r ∷ rs) = elim (Bool-cases (exists_row (is_by r.agent_id) rs)) [
    | inl seen ↦ rw seen (
        by_agent-Once r (groups rs) rs (groups-Once r.agent_id rs seen)
        ∙ ap (λ (n : ℕ). g r + n) (by_agent-groups rs))
    | inr new ↦
        rw
          (
            new,
            eq_refl r.agent_id,
            sum-none r.agent_id rs new,
            by_agent-Absent r (groups rs) rs (groups-Absent r.agent_id rs new),
            by_agent-groups rs,
          )
          (omega arith)
  ]

  sum-select :
      (p : UsageEvent → Bool) (rows : List UsageEvent)
      → sum g (select p rows) ≡ sum (λ e. if p e then g e else 0) rows
  sum-select p [] = refl
  sum-select p (e ∷ es) = elim (Bool-cases (p e)) [
    | inl h ↦ rw h (ap (λ (n : ℕ). g e + n) (sum-select p es))
    | inr h ↦ rw h (sum-select p es ∙ omega arith)
  ]

  pub sum-insert :
      (r : UsageEvent) (rows : List UsageEvent) → sum g (insert r rows) ≡ sum g rows + g r
  sum-insert r [] = omega arith
  sum-insert r (e ∷ es) = rw (sum-insert r es) (omega arith)

module _ (fl : Floats) (now : ℕ) (f : Meter → ℕ) (g : UsageEvent → ℕ)
    (adds : (t a : Meter) → f (add_meter fl t a) ≡ f t + f a)
    (counts : (es : List UsageEvent) → f (meter fl now es) ≡ sum g es) where
  add_agents-by_agent :
      (rows : List UsageEvent) (as_ : List String) (t : Meter)
      → f (add_agents fl now rows as_ t) ≡ f t + by_agent g as_ rows
  add_agents-by_agent rows [] t = omega arith
  add_agents-by_agent rows (a ∷ as_) t =
      add_agents-by_agent rows as_ (add_meter fl t (agent_meter fl now rows a))
      ∙ ap (λ (n : ℕ). n + by_agent g as_ rows)
          (adds t (agent_meter fl now rows a)
            ∙ ap (λ (n : ℕ). f t + n) (counts (select (is_by a) rows)))
      ∙ add_assoc (f t) (sum g (select (is_by a) rows)) (by_agent g as_ rows)

  -- A count of the team is the sum over its rows.
  pub add_agents-sum :
      (rows : List UsageEvent)
      → f (zero_meter fl) ≡ 0
      → f (add_agents fl now rows (groups rows) (zero_meter fl)) ≡ sum g rows
  add_agents-sum rows none_yet =
      let added = add_agents-by_agent rows (groups rows) (zero_meter fl) in
      let all = by_agent-groups g rows in omega (arith, none_yet, added, all)

module _ (fl : Floats) (now ms : ℕ) where
  -- The tokens of the rows in a window.
  abbrev pub tokens_within : UsageEvent → ℕ
  tokens_within e = if is_within now ms e then tokens e else 0

  window_tokens_lem : (es : List UsageEvent) → (window fl es).tokens ≡ sum tokens es
  unfolding window
  window_tokens_lem [] = refl
  window_tokens_lem (e ∷ es) = refl

  pub window-tokens :
      (es : List UsageEvent)
      → (window fl (select (is_within now ms) es)).tokens ≡ sum tokens_within es
  window-tokens es =
      window_tokens_lem (select (is_within now ms) es) ∙ sum-select tokens (is_within now ms) es

  pub tokens_within-sum :
      (es : List UsageEvent) → sum tokens_within es ≡ sum tokens (select (is_within now ms) es)
  tokens_within-sum es = sym (sum-select tokens (is_within now ms) es)
