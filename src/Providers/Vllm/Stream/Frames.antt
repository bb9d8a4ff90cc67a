-- ===== src/Providers/Vllm/Stream/Frames.antt =====
-- app/providers/vllm.py: what `generate_stream` makes of lines that carry no frame.
use package.text.Mathlib.Text.{starts_with}
use Prim.Native.String.{len, slice}
use llm_inference_autoscalin.Base.{
  ℕ, zero, suc, ◌+◌, String, ◌≡◌, refl, ap, ◌∙◌, Bool, true, false, not, ◌||◌, Option, none, some,
  List, [], ◌∷◌, leb, eq_refl, ◌==◌, if◌then◌else◌,
}
use llm_inference_autoscalin.Json.{Json, null, bool, number, fraction, text, array, object}
use llm_inference_autoscalin.Config.{ModelSpec}
use llm_inference_autoscalin.Providers.Vllm.{
  Codec, VllmProvider, Line, skipped, done, frame_of, parse_sse_line, Failure, one_of,
  retryable_status,
}
use llm_inference_autoscalin.Providers.Vllm.Loop.{Outcome, retried, attempts}
use llm_inference_autoscalin.Providers.{StreamChunk}
use llm_inference_autoscalin.Errors.{provider_unavailable_error}
use llm_inference_autoscalin.Providers.Vllm.Stream.{
  StreamReply, refuses, opens, Reading, Ending, unread, Streamed, fails_with, posts, rejected,
  after_reading, read_line, read_lines, opened, replied, generate_stream,
}

abbrev pub is_object : Json → Bool
is_object (object fs) = true
is_object _ = false

-- What follows `data:`
abbrev pub payload_of : Codec → String → String
payload_of c raw = let line = c.runtime.strip raw in c.runtime.strip (slice line 5 (len line))

-- A line that carries no frame and does not end the stream: an empty or blank one, a comment or
-- keep-alive, a field of another name, a frame that is not JSON, and one that is JSON but no object.
pub data Noise (c : Codec) : String → Type 0 where
  empty : Noise c ""
  blank : (raw : String) → c.runtime.strip raw ≡ "" → Noise c raw
  comment : (raw : String) → starts_with (c.runtime.strip raw) ":" ≡ true → Noise c raw
  other_field : (raw : String) → starts_with (c.runtime.strip raw) "data:" ≡ false → Noise c raw
  malformed :
      (raw : String)
      → (payload_of c raw == "[DONE]") ≡ false
      → c.loads (payload_of c raw) ≡ none
      → Noise c raw
  no_object :
      (raw : String) (j : Json)
      → (payload_of c raw == "[DONE]") ≡ false
      → c.loads (payload_of c raw) ≡ some j
      → is_object j ≡ false
      → Noise c raw

frame_of-none : frame_of none ≡ skipped
unfolding frame_of
frame_of-none = refl

frame_of-no_object : (j : Json) → is_object j ≡ false → frame_of (some j) ≡ skipped
unfolding frame_of
frame_of-no_object (object fs) h = absurd (cc h)
frame_of-no_object null h = refl
frame_of-no_object (bool b) h = refl
frame_of-no_object (number n) h = refl
frame_of-no_object (fraction n d) h = refl
frame_of-no_object (text t) h = refl
frame_of-no_object (array xs) h = refl

-- The tests of `parse_sse_line`, and what they come to where one of them skips the line.
abbrev tested : Bool → Bool → Bool → Bool → Line → Line
tested is_empty is_ignored is_data is_done line =
    if is_empty
    then skipped
    else if is_ignored
    then skipped
    else if not is_data
    then skipped
    else if is_done
    then done
    else line

parse_sse_line-tested :
    (c : Codec) (raw : String)
    → let line = c.runtime.strip raw in
      parse_sse_line c raw
      ≡ tested
          (raw == "")
          ((line == "") || starts_with line ":")
          (starts_with line "data:")
          (payload_of c raw == "[DONE]")
          (frame_of (c.loads (payload_of c raw)))
unfolding parse_sse_line
parse_sse_line-tested c raw = refl

tested-ignored : (a d e : Bool) (x : Line) → tested a true d e x ≡ skipped
tested-ignored true d e x = refl
tested-ignored false d e x = refl

tested-other : (a b e : Bool) (x : Line) → tested a b false e x ≡ skipped
tested-other true b e x = refl
tested-other false true e x = refl
tested-other false false e x = refl

tested-skipped : (a b d : Bool) → tested a b d false skipped ≡ skipped
tested-skipped true b d = refl
tested-skipped false true d = refl
tested-skipped false false true = refl
tested-skipped false false false = refl

or_true : (b : Bool) → (b || true) ≡ true
or_true true = refl
or_true false = refl

payload-skipped :
    (c : Codec) (raw : String)
    → (payload_of c raw == "[DONE]") ≡ false
    → frame_of (c.loads (payload_of c raw)) ≡ skipped
    → parse_sse_line c raw ≡ skipped
payload-skipped c raw h e =
    let line = c.runtime.strip raw in
    let ignored = (line == "") || starts_with line ":" in
    parse_sse_line-tested c raw
    ∙ ap
        (λ b.
          tested (raw == "") ignored (starts_with line "data:") b
            (frame_of (c.loads (payload_of c raw))))
        h
    ∙ ap (tested (raw == "") ignored (starts_with line "data:") false) e
    ∙ tested-skipped (raw == "") ignored (starts_with line "data:")

ignored-skipped :
    (c : Codec) (raw : String)
    → let line = c.runtime.strip raw in
      ((line == "") || starts_with line ":") ≡ true → parse_sse_line c raw ≡ skipped
ignored-skipped c raw h =
    let line = c.runtime.strip raw in
    let is_done = payload_of c raw == "[DONE]" in
    let x = frame_of (c.loads (payload_of c raw)) in
    parse_sse_line-tested c raw
    ∙ ap (λ b. tested (raw == "") b (starts_with line "data:") is_done x) h
    ∙ tested-ignored (raw == "") (starts_with line "data:") is_done x

Noise-skipped : (c : Codec) (raw : String) → Noise c raw → parse_sse_line c raw ≡ skipped
unfolding parse_sse_line
Noise-skipped c _ empty = refl
Noise-skipped c _ (blank raw h) =
    ignored-skipped c raw
      (ap (λ b. b || starts_with (c.runtime.strip raw) ":") (ap (λ t. t == "") h ∙ eq_refl ""))
Noise-skipped c _ (comment raw h) =
    ignored-skipped c raw
      (ap (λ b. (c.runtime.strip raw == "") || b) h ∙ or_true (c.runtime.strip raw == ""))
Noise-skipped c _ (other_field raw h) =
    let line = c.runtime.strip raw in
    let ignored = (line == "") || starts_with line ":" in
    let is_done = payload_of c raw == "[DONE]" in
    let x = frame_of (c.loads (payload_of c raw)) in
    parse_sse_line-tested c raw
    ∙ ap (λ b. tested (raw == "") ignored b is_done x) h
    ∙ tested-other (raw == "") ignored is_done x
Noise-skipped c _ (malformed raw h e) = payload-skipped c raw h (ap frame_of e ∙ frame_of-none)
Noise-skipped c _ (no_object raw j h e k) =
    payload-skipped c raw h (ap frame_of e ∙ frame_of-no_object j k)

-- The second of two streams has the lines of the first, and noise anywhere between them.
pub data Noisy (c : Codec) : List String → List String → Type 0 where
  ends : Noisy c [] []
  kept : (line : String) {xs ys : List String} → Noisy c xs ys → Noisy c (line ∷ xs) (line ∷ ys)
  noise :
      (line : String) {xs ys : List String} → Noise c line → Noisy c xs ys → Noisy c xs (line ∷ ys)

read_line-ext :
    (c : Codec) (r : Reading) (x : Line) (f g : Reading → List StreamChunk × Ending)
    → ((r' : Reading) → f r' ≡ g r')
    → read_line c r x f ≡ read_line c r x g
read_line-ext c r x f g h = λ i. read_line c r x (λ r'. h r' i)

read_line-skipped :
    (c : Codec) (r : Reading) (next : Reading → List StreamChunk × Ending)
    → read_line c r skipped next ≡ next r
unfolding read_line
read_line-skipped c r next = refl

read_lines-noise :
    (c : Codec) {xs ys : List String} (failure : Option Failure) (r : Reading)
    → Noisy c xs ys
    → read_lines c r ys failure ≡ read_lines c r xs failure
unfolding read_lines
read_lines-noise c failure r ends = refl
read_lines-noise c failure r (kept line n) =
    read_line-ext c r (parse_sse_line c line) _ _ (λ r'. read_lines-noise c failure r' n)
read_lines-noise c failure r (noise line {xs} {ys} skips n) =
    ap (λ x. read_line c r x (λ r'. read_lines c r' ys failure)) (Noise-skipped c line skips)
    ∙ read_line-skipped c r _
    ∙ read_lines-noise c failure r n

-- A reply with noise between the lines of another.
pub data NoisyReply (c : Codec) : StreamReply → StreamReply → Type 0 where
  refused : (f : Failure) → NoisyReply c (refuses f) (refuses f)
  opened_with :
      (status : ℕ) (failure : Option Failure) {xs ys : List String}
      → Noisy c xs ys
      → NoisyReply c (opens status xs failure) (opens status ys failure)

module _ (c : Codec) (p : VllmProvider) (model : ModelSpec) (prompt : String) (n : ℕ) where
  replied-noise :
      (attempt : ℕ) {x y : StreamReply} (next : Outcome Streamed)
      → NoisyReply c x y
      → replied c p model prompt n attempt y next ≡ replied c p model prompt n attempt x next
  unfolding replied opened
  replied-noise attempt next (refused f) = refl
  replied-noise attempt next (opened_with status failure noisy) =
      ap
        (λ lines.
          if one_of status retryable_status
          then retried p (posts c p model prompt n) attempt (fails_with provider_unavailable_error)
              next
          else if leb 400 status
          then rejected c p model prompt n attempt failure next
          else after_reading c p model prompt n attempt lines next)
        (read_lines-noise c failure unread noisy)

  attempts-noise :
      (replies noisy : ℕ → StreamReply) (otherwise : Streamed) (attempt left : ℕ)
      → ((i : ℕ) → NoisyReply c (replies i) (noisy i))
      → attempts noisy (replied c p model prompt n) otherwise attempt left
        ≡ attempts replies (replied c p model prompt n) otherwise attempt left
  unfolding attempts
  attempts-noise replies noisy otherwise attempt zero h = refl
  attempts-noise replies noisy otherwise attempt (suc left) h =
      replied-noise attempt
        (attempts noisy (replied c p model prompt n) otherwise (attempt + 1) left) (h attempt)
      ∙ ap (replied c p model prompt n attempt (replies attempt))
          (attempts-noise replies noisy otherwise (attempt + 1) left h)

  -- Empty lines, comments, keep-alives, other fields and malformed frames do nothing: wherever they
  -- stand between the lines of the replies, and whatever they hold, `generate_stream` makes the same
  -- posts and delays, hands on the same chunks and ends in the same way as without them.
  pub generate_stream-noise :
      (replies noisy : ℕ → StreamReply)
      → ((i : ℕ) → NoisyReply c (replies i) (noisy i))
      → generate_stream c p model prompt n noisy ≡ generate_stream c p model prompt n replies
  unfolding generate_stream
  generate_stream-noise replies noisy h = attempts-noise replies noisy _ 0 p.max_retries h
