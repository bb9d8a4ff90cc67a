-- ===== src/Providers/Mock.antt =====
-- app/providers/mock.py: the offline provider. Its sleeps are left out. `show` is `str` of a number.
pub mod Agreement
use Prim.Native.String.{count, ◌++◌ as ◌<>◌}
use llm_inference_autoscalin.Base.{
  ℕ, zero, suc, ◌+◌, ◌*◌, ◌/◌, String, Bool, false, Option, none, some, List, [], ◌∷◌, ◌++◌, map,
  eqb, leb, if◌then◌else◌, ceil_div, take_chars, drop_chars, sum_by,
}
use llm_inference_autoscalin.Errors.{Error, provider_error, value_error, Result, returns, throws}
use llm_inference_autoscalin.Config.{ModelSpec}
use llm_inference_autoscalin.Tokens.{TextRuntime, count_tokens}
use llm_inference_autoscalin.Providers.{Completion, StreamChunk}

-- `chars_per_token` is in thousandths of a character.
pub record MockProvider : Type 0 where
  pub chars_per_token : ℕ
  pub fail_after_chunks : Option ℕ
  pub raise_error : Option Error
  pub chunk_chars : ℕ

module _ (rt : TextRuntime) (show : ℕ → String) where
  -- `_body`
  unfoldable pub body : MockProvider → ModelSpec → String → ℕ → String
  body p model prompt max_output_tokens =
      let text =
        "["
        <> model.name
        <> "] response to a "
        <> show (count_tokens rt prompt p.chars_per_token)
        <> "-token prompt. This is a deterministic mock completion." in
      let max_chars = max_output_tokens * p.chars_per_token / 1000 in
      if eqb max_chars 0 then text else take_chars max_chars text

  abbrev pub complete : MockProvider → ModelSpec → String → ℕ → Completion
  complete p model prompt max_output_tokens =
      let text = body p model prompt max_output_tokens in
      record {
        text = text;
        input_tokens = count_tokens rt prompt p.chars_per_token;
        output_tokens = count_tokens rt text p.chars_per_token;
        model = model.name;
      }

  -- `generate`
  unfoldable pub generate : MockProvider → ModelSpec → String → ℕ → Result Completion
  generate p model prompt max_output_tokens = elim p.raise_error [
    | none ↦ returns (complete p model prompt max_output_tokens)
    | some e ↦ elim p.fail_after_chunks [
      | none ↦ throws e
      | some n ↦ returns (complete p model prompt max_output_tokens)
    ]
  ]

-- `fail_after_chunks is not None and sent_chunks >= fail_after_chunks`
abbrev pub fails_now : Option ℕ → ℕ → Bool
fails_now none sent_chunks = false
fails_now (some n) sent_chunks = leb n sent_chunks

-- `raise_error or ProviderError(…)`
abbrev pub injected : Option Error → Error
injected none = provider_error
injected (some e) = e

-- The loop over the starts of the pieces, with so many left, and what is left of the text: the pieces
-- that are handed on, and the exception that ends the loop, if one does.
unfoldable pub pieces : MockProvider → ℕ → String → ℕ → List String × Option Error
pieces p zero rest sent_chunks = ([], none)
pieces p (suc n) rest sent_chunks =
    let (ps, e) = pieces p n (drop_chars p.chunk_chars rest) (sent_chunks + 1) in
    if fails_now p.fail_after_chunks sent_chunks
    then ([], some (injected p.raise_error))
    else (take_chars p.chunk_chars rest ∷ ps, e)

abbrev pub piece_chunk : String → StreamChunk
piece_chunk piece = record { text = piece; finish_reason = none; usage = none }

module _ (rt : TextRuntime) where
  -- The last chunk, after so many characters of the text.
  abbrev pub stop_chunk : MockProvider → String → String → ℕ → StreamChunk
  stop_chunk p prompt text emitted = record {
    text = "";
    finish_reason = some "stop";
    usage = some (record {
      input_tokens = count_tokens rt prompt p.chars_per_token;
      output_tokens = count_tokens rt (take_chars emitted text) p.chars_per_token;
    });
  }

  unfoldable pub after_pieces :
      MockProvider → String → String → List String × Option Error → List StreamChunk × Option Error
  after_pieces p prompt text (ps, some e) = (map piece_chunk ps, some e)
  after_pieces p prompt text (ps, none) =
      (map piece_chunk ps ++ stop_chunk p prompt text (sum_by count ps) ∷ [], none)

  -- `generate_stream`; a step of 0 is no argument for `range`.
  unfoldable pub generate_stream :
      (ℕ → String) → MockProvider → ModelSpec → String → ℕ → List StreamChunk × Option Error
  unfolding after_pieces
  generate_stream show p model prompt max_output_tokens =
      let text = body rt show p model prompt max_output_tokens in
      if eqb p.chunk_chars 0
      then ([], some value_error)
      else after_pieces p prompt text (pieces p (ceil_div (count text) p.chunk_chars) text 0)
