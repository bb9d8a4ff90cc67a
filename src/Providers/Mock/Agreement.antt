-- ===== src/Providers/Mock/Agreement.antt =====
-- app/providers/mock.py: the stream and the completion are the same text.
use Prim.Native.String.{count, ◌++◌ as ◌<>◌}
use package.text.Mathlib.TextLemmas.{length-nil, length-append}
use llm_inference_autoscalin.Base.{
  ℕ, zero, suc, ◌+◌, ◌*◌, ◌≤◌, ◌<◌, String, ◌≡◌, refl, sym, ap, ◌∙◌, false, Option, none, some,
  List, [], ◌∷◌, ◌++◌, map, arith, eqb, ceil_div, ceil_div-covers, sum_by, take_chars, drop_chars,
  take-append-drop, count-drop, take_all, count-zero,
}
use native.Mathlib.Nat.{add-mul}
use llm_inference_autoscalin.Errors.{Error, returns, throws}
use llm_inference_autoscalin.Config.{ModelSpec}
use llm_inference_autoscalin.Tokens.{TextRuntime, count_tokens}
use llm_inference_autoscalin.Providers.{Completion, StreamChunk}
use llm_inference_autoscalin.Providers.Mock.{
  MockProvider, body, complete, generate, pieces, piece_chunk, stop_chunk, after_pieces,
  generate_stream,
}
use llm_inference_autoscalin.Service.Stream.{join}

abbrev pub last_chunk : Completion → StreamChunk
last_chunk c = record {
  text = "";
  finish_reason = some "stop";
  usage = some (record { input_tokens = c.input_tokens; output_tokens = c.output_tokens });
}

pos→ne0 : (n : ℕ) → 0 < n → eqb n 0 ≡ false
pos→ne0 n h = ground arith

pieces-join :
    (p : MockProvider) (n : ℕ) (rest : String) (sent_chunks : ℕ)
    → p.fail_after_chunks ≡ none
    → count rest ≤ n * p.chunk_chars
    → ((pieces p n rest sent_chunks).1 ≡ none) × (join (pieces p n rest sent_chunks).0 ≡ rest)
unfolding pieces join
pieces-join p zero rest sent_chunks h covers = (refl, sym (count-zero rest (omega (arith, covers))))
pieces-join p (suc n) rest sent_chunks h covers =
    let ih =
      pieces-join p n (drop_chars p.chunk_chars rest) (sent_chunks + 1) h
        (omega (arith, count-drop p.chunk_chars rest, add-mul 1 n p.chunk_chars, covers)) in
    rw (h, pieces)
      (
        ih.0,
        ap (λ t. take_chars p.chunk_chars rest <> t) ih.1 ∙ take-append-drop p.chunk_chars rest,
      )

count-join : (ps : List String) → count (join ps) ≡ sum_by count ps
unfolding join
count-join [] = length-nil
count-join (s ∷ ps) = omega (arith, length-append s (join ps), count-join ps)

after_pieces-none :
    (rt : TextRuntime) (p : MockProvider) (prompt text : String) (x : List String × Option Error)
    → x.1 ≡ none
    → after_pieces rt p prompt text x
      ≡ (map piece_chunk x.0 ++ stop_chunk rt p prompt text (sum_by count x.0) ∷ [], none)
unfolding after_pieces
after_pieces-none rt p prompt text (ps, none) h = refl
after_pieces-none rt p prompt text (ps, some e) h = absurd (cc h)

-- The stream and the completion agree. Where no failure is injected and a chunk has characters, both
-- calls succeed; the texts of the stream's chunks, joined, are the completion's text; and the last
-- chunk, which alone has a usage, has the completion's token counts.
pub stream-agrees :
    (rt : TextRuntime) (show : ℕ → String) (p : MockProvider) (model : ModelSpec) (prompt : String)
    (max_output_tokens : ℕ)
    → p.fail_after_chunks ≡ none
    → p.raise_error ≡ none
    → 0 < p.chunk_chars
    → (c : Completion) × (ps : List String) × (generate rt show p model prompt max_output_tokens
        ≡ returns c)
      × (generate_stream rt show p model prompt max_output_tokens
          ≡ (map piece_chunk ps ++ last_chunk c ∷ [], none))
      × (join ps ≡ c.text)
unfolding generate generate_stream
stream-agrees rt show p model prompt max_output_tokens f r pos =
    let text = body rt show p model prompt max_output_tokens in
    let n = ceil_div (count text) p.chunk_chars in
    let (ends, joins) = pieces-join p n text 0 f (ceil_div-covers (count text) p.chunk_chars pos) in
    let ps = (pieces p n text 0).0 in
    let all : take_chars (sum_by count ps) text ≡ text =
      take_all (sum_by count ps) text (omega (arith, count-join ps, ap count joins)) in
    (
      complete rt show p model prompt max_output_tokens,
      ps,
      ap
          (λ (o : Option Error). elim o [
            | none ↦ returns (complete rt show p model prompt max_output_tokens)
            | some e ↦ elim p.fail_after_chunks [
              | none ↦ throws e
              | some k ↦ returns (complete rt show p model prompt max_output_tokens)
            ]
          ])
          r,
      rw (pos→ne0 p.chunk_chars pos, generate_stream)
          (after_pieces-none rt p prompt text (pieces p n text 0) ends
            ∙ ap
                (λ t. (
                  map piece_chunk ps
                      ++ record {
                        text = "";
                        finish_reason = some "stop";
                        usage = some (record {
                          input_tokens = count_tokens rt prompt p.chars_per_token;
                          output_tokens = count_tokens rt t p.chars_per_token;
                        });
                      }
                        ∷ [],
                  none,
                ))
                all),
      joins,
    )
