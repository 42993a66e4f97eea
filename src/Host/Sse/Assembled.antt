-- ===== src/Host/Sse/Assembled.antt =====
-- scripts/atmcp_workbench_host.py: what a round of a chat is, from its stream.
use text.Mathlib.TextLemmas.{nil-append, append-nil, append_assoc}
use atmcp.Base.{
  ℕ, ◌+◌, leb, String, ◌≡◌, refl, ap, sym, ◌∙◌, List, [], ◌∷◌, ◌++◌, len, concat, concat-append,
  Bool-cases, inl, inr,
}
use Prim.Native.String.{◌++◌ as ◌<>◌}
use atmcp.Host.Sse.{
  SseLine, silence, read_stream, openai_stream, Batch, send_batch, add_text, add_texts,
  round_output,
}
use atmcp.Host.Sse.Slots.{
  arguments_at, streamed_at, Ascending, order_by-Ascending, arguments-order_by,
  read_stream-Distinct, arguments-read_stream,
}

-- What was sent, and what waits.
abbrev total : Batch → String
total b = concat b.sent <> concat b.buf

-- The batches lose nothing.
send_batch-total :
    (buf : List String) (b : Batch) → b.buf ≡ buf → concat (send_batch buf b).sent ≡ total b
send_batch-total [] b e = rw e (sym (append-nil (concat b.sent)))
send_batch-total (t ∷ ts) b e =
    rw (e, concat-append b.sent (concat (t ∷ ts) ∷ []), append-nil (concat (t ∷ ts))) refl

send_batch-empty : (buf : List String) (b : Batch) → b.buf ≡ buf → (send_batch buf b).buf ≡ []
send_batch-empty [] b e = e
send_batch-empty (t ∷ ts) b e = refl

add_text-total : (t : String) (b : Batch) → total (add_text t b) ≡ total b <> t
add_text-total t b =
    let b' = record b { buf = b.buf ++ t ∷ []; buf_len = b.buf_len + len t } in
    let grown : total b' ≡ total b <> t =
      ap (λ x. concat b.sent <> x)
        (concat-append b.buf (t ∷ []) ∙ ap (λ x. concat b.buf <> x) (append-nil t))
      ∙ sym (append_assoc (concat b.sent) (concat b.buf) t) in
    elim (Bool-cases (leb 120 b'.buf_len)) [
      | inl e ↦
          rw (e, send_batch-empty b'.buf b' refl)
            (append-nil (concat (send_batch b'.buf b').sent)
              ∙ send_batch-total b'.buf b' refl
              ∙ grown)
      | inr e ↦ rw e grown
    ]

add_texts-concat :
    (ts : List String) (b : Batch) → concat (add_texts ts b).sent ≡ total b <> concat ts
add_texts-concat [] b = send_batch-total b.buf b refl ∙ sym (append-nil (total b))
add_texts-concat (t ∷ ts) b =
    add_texts-concat ts (add_text t b)
    ∙ ap (λ x. x <> concat ts) (add_text-total t b)
    ∙ append_assoc (total b) t (concat ts)

-- What a round sends as output is together exactly its content. Its tool calls go up by their indices,
-- one for each, and the arguments of the call at an index are the fragments that the stream brought for
-- that index before its end, in their order, however the calls were interleaved.
pub openai_stream_lem :
    (lines : List SseLine)
    → let r = openai_stream lines in
      (concat (round_output lines) ≡ r.content)
      × Ascending r.tool_calls
      × ((i : ℕ) → arguments_at i r.tool_calls ≡ streamed_at i lines)
unfolding openai_stream round_output
openai_stream_lem lines =
    let h = read_stream lines silence in
    (
      add_texts-concat h.parts (record { buf = []; buf_len = 0; sent = [] })
          ∙ ap (λ x. x <> concat h.parts) (nil-append "")
          ∙ nil-append (concat h.parts),
      order_by-Ascending h.slots (read_stream-Distinct lines silence tt),
      λ i.
          arguments-order_by i h.slots
          ∙ arguments-read_stream i lines silence tt
          ∙ nil-append (streamed_at i lines),
    )
