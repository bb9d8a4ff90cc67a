-- ===== src/Complexity/Keywords.antt =====
-- app/complexity.py: the keyword sets, and what a keyword hits. A text is read as code points.
use llm_inference_autoscalin.Base.{
  ℕ, String, Bool, true, false, not, ◌&&◌, ◌||◌, Option, none, some, List, [], ◌∷◌, eqb,
  if◌then◌else◌, filter,
}
use Prim.Native.Char.{code}
use llm_inference_autoscalin.Tokens.{TextRuntime}

abbrev pub reasoning_keywords : List String
reasoning_keywords =
    "analyze" ∷ "analyse" ∷ "prove" ∷ "derive" ∷ "design" ∷ "architect" ∷ "debug" ∷ "optimize"
    ∷ "optimise" ∷ "refactor" ∷ "explain" ∷ "reason" ∷ "step by step" ∷ "step-by-step" ∷ "compare"
    ∷ "evaluate" ∷ "algorithm" ∷ "trade-off" ∷ "tradeoff" ∷ "strategy" ∷ "plan" ∷ []

abbrev pub simple_keywords : List String
simple_keywords =
    "translate" ∷ "capitalize" ∷ "uppercase" ∷ "lowercase" ∷ "spell" ∷ "define" ∷ "what is"
    ∷ "hello" ∷ "hi " ∷ "thanks" ∷ "summarize" ∷ "tl;dr" ∷ "list" ∷ []

abbrev pub codes : String → List ℕ
codes String.[] = []
codes (String.◌∷◌ c s) = code c ∷ codes s

-- What is left of a text behind a prefix.
unfoldable pub strip_prefix : List ℕ → List ℕ → Option (List ℕ)
strip_prefix [] t = some t
strip_prefix (p ∷ ps) [] = none
strip_prefix (p ∷ ps) (c ∷ cs) = if eqb p c then strip_prefix ps cs else none

abbrev pub is_some {ℓ} : {A : Type ℓ} → Option A → Bool
is_some none = false
is_some (some _) = true

-- `sub in text`
unfoldable pub contains_from : List ℕ → List ℕ → Bool
contains_from sub [] = is_some (strip_prefix sub [])
contains_from sub (c ∷ cs) = is_some (strip_prefix sub (c ∷ cs)) || contains_from sub cs

unfoldable pub contains_text : String → String → Bool
contains_text sub text = contains_from (codes sub) (codes text)

-- Whether the next character, if any, is one that `\w` matches.
abbrev pub word_next : (ℕ → Bool) → List ℕ → Bool
word_next is_word [] = false
word_next is_word (c ∷ cs) = is_word c

-- `\b` between two sides, of which one is a word character and the other is not.
abbrev pub boundary : Bool → Bool → Bool
boundary true b = not b
boundary false b = b

-- Whether the character that the keyword ends in is a word character; `before` if it is empty.
unfoldable pub word_last : (ℕ → Bool) → Bool → List ℕ → Bool
word_last is_word before [] = before
word_last is_word before (c ∷ cs) = word_last is_word (is_word c) cs

-- A match of `\bkw\b` at this place, `before` being whether a word character stands before it.
unfoldable pub word_here : (ℕ → Bool) → Bool → List ℕ → List ℕ → Bool
word_here is_word before kw text = elim (strip_prefix kw text) [
  | none ↦ false
  | some rest ↦
      boundary before (word_next is_word text)
      && boundary (word_last is_word before kw) (word_next is_word rest)
]

-- `re.search(rf"\b{re.escape(kw)}\b", text)`
unfoldable pub search_word : (ℕ → Bool) → Bool → List ℕ → List ℕ → Bool
search_word is_word before kw [] = word_here is_word before kw []
search_word is_word before kw (c ∷ cs) =
    word_here is_word before kw (c ∷ cs) || search_word is_word (is_word c) kw cs

unfoldable pub hits : TextRuntime → String → String → Bool
hits rt text kw =
    if contains_text " " kw
    then contains_text kw text
    else search_word rt.is_word false (codes kw) (codes text)

-- `_keyword_hits`
unfoldable pub keyword_hits : TextRuntime → String → List String → List String
keyword_hits rt text keywords = filter (hits rt text) keywords
