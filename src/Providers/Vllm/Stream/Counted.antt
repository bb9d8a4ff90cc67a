-- ===== src/Providers/Vllm/Stream/Counted.antt =====
-- app/providers/vllm.py: what a reading of the lines hands on and counts.
use Prim.Native.String.{count}
use llm_inference_autoscalin.Base.{
  ℕ, ◌+◌, String, ◌≡◌, refl, ◌∙◌, inl, inr, Bool, true, false, Option, none, some, List, [], ◌∷◌,
  arith, ◌==◌, if◌then◌else◌, Bool-cases, sum_by, sum_by-append,
}
use mathlib.Core.Path.{subst}
use llm_inference_autoscalin.Errors.{Result, returns, throws, ◌>>=◌}
use llm_inference_autoscalin.Json.{Json, Fields, get}
use llm_inference_autoscalin.Providers.{TokenUsage, StreamChunk}
use llm_inference_autoscalin.Providers.Vllm.{
  Codec, get_of, first_choice, text_of, usage_from, Line, skipped, done, frame, parse_sse_line,
  Failure,
}
use llm_inference_autoscalin.Providers.Vllm.Stream.{
  Reading, Ending, completes, breaks, with_usage, yielding, text_chunk, reason_of, read_choice,
  read_usage, read_choices, read_line, read_lines,
}

-- A reading that fails before the first frame has handed nothing on.
abbrev pub IsSilent : List StreamChunk × Ending → Type 0
IsSilent (cs, completes r) = Unit {0}
IsSilent (cs, breaks true f) = Unit {0}
IsSilent (cs, breaks false f) = cs ≡ []

abbrev pub IsLoud : List StreamChunk × Ending → Type 0
IsLoud (cs, completes r) = Unit {0}
IsLoud (cs, breaks true f) = Unit {0}
IsLoud (cs, breaks false f) = ⊥

yielding-IsLoud :
    (cs : List StreamChunk) (x : List StreamChunk × Ending) → IsLoud x → IsLoud (yielding cs x)
yielding-IsLoud cs (ds, completes r) h = tt
yielding-IsLoud cs (ds, breaks true f) h = tt
yielding-IsLoud cs (ds, breaks false f) h = h

-- What the characters that were handed on are counted as.
abbrev pub characters : List StreamChunk → ℕ
characters = sum_by (λ d. count d.text)

abbrev pub Counts : ℕ → List StreamChunk × Ending → Type 0
Counts n (cs, completes r) = r.accumulated ≡ n + characters cs
Counts n (cs, breaks started f) = Unit {0}

yielding-Counts :
    (n : ℕ) (cs : List StreamChunk) (x : List StreamChunk × Ending)
    → Counts (n + characters cs) x
    → Counts n (yielding cs x)
yielding-Counts n cs (ds, completes r) h = omega (arith, sum_by-append (λ d. count d.text) cs ds)
yielding-Counts n cs (ds, breaks started f) h = tt

-- The variables after a choice count its piece, and remember that a frame has come.
abbrev pub IsRead : Reading → Result (Reading × List StreamChunk) → Type 0
IsRead r (throws e) = Unit {0}
IsRead r (returns (r', cs)) =
    (r'.started ≡ r.started) × (r'.accumulated ≡ r.accumulated + characters cs)

reason_IsRead :
    (r : Reading) (piece : String) (x : Result (Option String))
    → IsRead r (
        x >>= λ reason. returns (
          if piece == "" then (record r { finish_reason = reason }, []) else (
            record r { finish_reason = reason; accumulated = r.accumulated + count piece },
            text_chunk piece ∷ [],
          )))
reason_IsRead r piece (throws e) = tt
reason_IsRead r piece (returns reason) = elim (Bool-cases (piece == "")) [
  | inl empty ↦ rw empty (refl, omega arith)
  | inr text ↦ rw text (refl, omega arith)
]

read_choice-IsRead : (r : Reading) (x : Option Json) → IsRead r (read_choice r x)
unfolding read_choice
read_choice-IsRead r none = (refl, omega arith)
read_choice-IsRead r (some choice) = by_text (text_of choice)
  where
    by_text :
        (x : Result String)
        → IsRead r (
            x >>= λ piece. get_of "finish_reason" choice >>= reason_of r.finish_reason >>= λ reason.
            returns (
              if piece == "" then (record r { finish_reason = reason }, []) else (
                record r { finish_reason = reason; accumulated = r.accumulated + count piece },
                text_chunk piece ∷ [],
              )))
    by_text (throws e) = tt
    by_text (returns piece) =
        reason_IsRead r piece (get_of "finish_reason" choice >>= reason_of r.finish_reason)

first_IsRead : (r : Reading) (x : Result (Option Json)) → IsRead r (x >>= read_choice r)
first_IsRead r (throws e) = tt
first_IsRead r (returns choice) = read_choice-IsRead r choice

module _ (c : Codec) (fs : Fields) (r : Reading) (next : Reading → List StreamChunk × Ending) where
  usage-Counts :
      (x : Result (Option TokenUsage)) (r' : Reading) (cs : List StreamChunk)
      → r'.accumulated ≡ r.accumulated + characters cs
      → ((y : Reading) → Counts y.accumulated (next y))
      → Counts r.accumulated (read_usage x (r', cs) next)
  unfolding read_usage
  usage-Counts (throws e) r' cs h all = tt
  usage-Counts (returns none) r' cs h all =
      yielding-Counts r.accumulated cs (next r') (subst (λ n. Counts n (next r')) h (all r'))
  usage-Counts (returns (some u)) r' cs h all =
      yielding-Counts r.accumulated cs (next (with_usage r' (some u)))
        (subst (λ n. Counts n (next (with_usage r' (some u)))) h (all (with_usage r' (some u))))

  choices-Counts :
      (x : Result (Reading × List StreamChunk))
      → IsRead r x
      → ((y : Reading) → Counts y.accumulated (next y))
      → Counts r.accumulated (read_choices c fs x next)
  unfolding read_choices
  choices-Counts (throws e) h all = tt
  choices-Counts (returns (r', cs)) h all = usage-Counts (usage_from c fs) r' cs h.1 all

  usage-IsLoud :
      (x : Result (Option TokenUsage)) (r' : Reading) (cs : List StreamChunk)
      → r'.started ≡ true
      → ((y : Reading) → y.started ≡ true → IsLoud (next y))
      → IsLoud (read_usage x (r', cs) next)
  unfolding read_usage
  usage-IsLoud (throws e) r' cs h all = tt
  usage-IsLoud (returns none) r' cs h all = yielding-IsLoud cs (next r') (all r' h)
  usage-IsLoud (returns (some u)) r' cs h all =
      yielding-IsLoud cs (next (with_usage r' (some u))) (all (with_usage r' (some u)) h)

  choices-IsLoud :
      (x : Result (Reading × List StreamChunk))
      → r.started ≡ true
      → IsRead r x
      → ((y : Reading) → y.started ≡ true → IsLoud (next y))
      → IsLoud (read_choices c fs x next)
  unfolding read_choices
  choices-IsLoud (throws e) s h all = tt
  choices-IsLoud (returns (r', cs)) s h all = usage-IsLoud (usage_from c fs) r' cs (h.0 ∙ s) all

-- What a frame makes of the rest of the loop.
frame-IsRead :
    (r : Reading) (fs : Fields)
    → let r' = record r { started = true } in
      IsRead r' (first_choice (get "choices" fs) >>= read_choice r')
frame-IsRead r fs = first_IsRead (record r { started = true }) (first_choice (get "choices" fs))

-- If a reading comes to its end, what it counts as received is what it has handed on.
pub read_lines-Counts :
    (c : Codec) (lines : List String) (failure : Option Failure) (r : Reading)
    → Counts r.accumulated (read_lines c r lines failure)
unfolding read_lines read_line
read_lines-Counts c [] none r = omega arith
read_lines-Counts c [] (some f) r = tt
read_lines-Counts c (line ∷ lines) failure r =
    by_line (parse_sse_line c line) (λ y. read_lines-Counts c lines failure y)
  where
    by_line :
        (x : Line)
        → ((y : Reading) → Counts y.accumulated (read_lines c y lines failure))
        → Counts r.accumulated (read_line c r x (λ y. read_lines c y lines failure))
    by_line skipped ih = ih r
    by_line done ih = omega arith
    by_line (frame fs) ih =
        choices-Counts c fs (record r { started = true }) (λ y. read_lines c y lines failure) _
          (frame-IsRead r fs) ih

-- Once a frame has come, no failure looks as if none had.
read_lines-IsLoud :
    (c : Codec) (lines : List String) (failure : Option Failure) (r : Reading)
    → r.started ≡ true
    → IsLoud (read_lines c r lines failure)
unfolding read_lines read_line
read_lines-IsLoud c [] none r h = tt
read_lines-IsLoud c [] (some f) r h = rw h tt
read_lines-IsLoud c (line ∷ lines) failure r h =
    by_line (parse_sse_line c line) (λ y k. read_lines-IsLoud c lines failure y k)
  where
    by_line :
        (x : Line)
        → ((y : Reading) → y.started ≡ true → IsLoud (read_lines c y lines failure))
        → IsLoud (read_line c r x (λ y. read_lines c y lines failure))
    by_line skipped ih = ih r h
    by_line done ih = tt
    by_line (frame fs) ih =
        choices-IsLoud c fs (record r { started = true }) (λ y. read_lines c y lines failure) _ refl
          (frame-IsRead r fs) ih

IsLoud-IsSilent : (x : List StreamChunk × Ending) → IsLoud x → IsSilent x
IsLoud-IsSilent (cs, completes r) h = tt
IsLoud-IsSilent (cs, breaks true f) h = tt
IsLoud-IsSilent (cs, breaks false f) h = absurd h

-- A failure that is retried has handed nothing on.
pub read_lines-IsSilent :
    (c : Codec) (lines : List String) (failure : Option Failure) (r : Reading)
    → IsSilent (read_lines c r lines failure)
unfolding read_lines read_line
read_lines-IsSilent c [] none r = tt
read_lines-IsSilent c [] (some f) r = by_start r.started
  where
    by_start : (b : Bool) → IsSilent ([], breaks b f)
    by_start true = tt
    by_start false = refl
read_lines-IsSilent c (line ∷ lines) failure r =
    by_line (parse_sse_line c line) (read_lines-IsSilent c lines failure r)
  where
    by_line :
        (x : Line)
        → IsSilent (read_lines c r lines failure)
        → IsSilent (read_line c r x (λ y. read_lines c y lines failure))
    by_line skipped ih = ih
    by_line done ih = tt
    by_line (frame fs) ih = IsLoud-IsSilent _ (
        choices-IsLoud c fs (record r { started = true }) (λ y. read_lines c y lines failure) _ refl
          (frame-IsRead r fs) (λ y k. read_lines-IsLoud c lines failure y k))
