-- ===== src/Usage/Reads.antt =====
-- services/usage.py, `_i`: what the numbers of a report are read as.
use atmcp.Base.{ℕ, ◌<◌, ◌≡◌, refl, true, false, none, some, ◌⊎◌, inl, inr, arith, pos, negsuc}
use atmcp.Usage.{
  Number, unread, whole, infinite, read_count, Report, Counts, with_count, counts_of, fit_int64,
}

-- The count that a number stands for: itself if it is an integer from 0, and 0 if it is a negative one,
-- missing or no number. An infinity stands for none.
abbrev pub Reads : Number → ℕ → Type 0
Reads unread k = k ≡ 0
Reads (whole (pos n)) k = k ≡ n
Reads (whole (negsuc n)) k = k ≡ 0
Reads infinite k = ⊥

-- Each count is what the number of the report stands for.
pub record AllRead (r : Report) (n : Counts) : Type 0 where
  pub input_tokens : Reads r.input_tokens n.input_tokens
  pub output_tokens : Reads r.output_tokens n.output_tokens
  pub cache_read : Reads r.cache_read n.cache_read
  pub cache_creation : Reads r.cache_creation n.cache_creation
  pub num_turns : Reads r.num_turns n.num_turns
  pub duration_ms : Reads r.duration_ms n.duration_ms

-- One of the numbers is an infinity.
abbrev pub Infinite : Report → Type 0
Infinite r =
    (r.input_tokens ≡ infinite)
    ⊎ ((r.output_tokens ≡ infinite)
        ⊎ ((r.cache_read ≡ infinite)
            ⊎ ((r.cache_creation ≡ infinite)
                ⊎ ((r.num_turns ≡ infinite) ⊎ (r.duration_ms ≡ infinite)))))

-- Each count fits a column of 64 bits.
pub record Fits (n : Counts) : Type 0 where
  pub input_tokens : n.input_tokens < 9223372036854775808
  pub output_tokens : n.output_tokens < 9223372036854775808
  pub cache_read : n.cache_read < 9223372036854775808
  pub cache_creation : n.cache_creation < 9223372036854775808
  pub num_turns : n.num_turns < 9223372036854775808
  pub duration_ms : n.duration_ms < 9223372036854775808

read_cases :
    (x : Number)
    → ((x ≡ infinite) × (read_count x ≡ none)) ⊎ ((k : ℕ) × (read_count x ≡ some k) × Reads x k)
unfolding read_count
read_cases unread = inr (0, refl, refl)
read_cases (whole (pos n)) = inr (n, refl, refl)
read_cases (whole (negsuc n)) = inr (0, refl, refl)
read_cases infinite = inl (refl, refl)

pub counts_of_lem :
    (r : Report)
    → (Infinite r × (counts_of r ≡ none)) ⊎ ((n : Counts) × (counts_of r ≡ some n) × AllRead r n)
counts_of_lem r = elim (read_cases r.input_tokens) [
  | inl (i, e) ↦ inl (inl i, rw (with_count, e) refl)
  | inr (a, ea, ra) ↦ elim (read_cases r.output_tokens) [
    | inl (i, e) ↦ inl (inr (inl i), rw (with_count, ea, e) refl)
    | inr (b, eb, rb) ↦ elim (read_cases r.cache_read) [
      | inl (i, e) ↦ inl (inr (inr (inl i)), rw (with_count, ea, eb, e) refl)
      | inr (c, ec, rc) ↦ elim (read_cases r.cache_creation) [
        | inl (i, e) ↦ inl (inr (inr (inr (inl i))), rw (with_count, ea, eb, ec, e) refl)
        | inr (d, ed, rd) ↦ elim (read_cases r.num_turns) [
          | inl (i, e) ↦
              inl (inr (inr (inr (inr (inl i)))), rw (with_count, ea, eb, ec, ed, e) refl)
          | inr (t, et, rt) ↦ elim (read_cases r.duration_ms) [
            | inl (i, e) ↦
                inl (inr (inr (inr (inr (inr i)))), rw (with_count, ea, eb, ec, ed, et, e) refl)
            | inr (m, em, rm) ↦ inr (
              _,
              rw (with_count, ea, eb, ec, ed, et, em) refl,
              record {
                input_tokens = ra;
                output_tokens = rb;
                cache_read = rc;
                cache_creation = rd;
                num_turns = rt;
                duration_ms = rm;
              },
            )
          ]
        ]
      ]
    ]
  ]
]

pub fit_int64-Fits : (n : Counts) → fit_int64 n ≡ true → Fits n
fit_int64-Fits n h = record {
  input_tokens = ground (arith, h);
  output_tokens = ground (arith, h);
  cache_read = ground (arith, h);
  cache_creation = ground (arith, h);
  num_turns = ground (arith, h);
  duration_ms = ground (arith, h);
}

pub not-Fits : (n : Counts) → fit_int64 n ≡ false → ¬ Fits n
not-Fits n h f = ground (
  arith, h, f.input_tokens, f.output_tokens, f.cache_read, f.cache_creation, f.num_turns,
  f.duration_ms,
)
