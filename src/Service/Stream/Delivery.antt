-- ===== src/Service/Stream/Delivery.antt =====
-- app/service.py: what a stream hands to the client, and what it bills and caches.
use llm_inference_autoscalin.Providers.{TokenUsage, StreamChunk}
use llm_inference_autoscalin.Base.{
  ℕ, zero, suc, String, ◌≡◌, refl, sym, ◌∙◌, ◌⊎◌, inl, inr, false, Option, none, some, List, [],
  ◌∷◌, ◌++◌, ◌==◌, if◌then◌else◌, Bool-cases,
}
use llm_inference_autoscalin.Base.{append_nil, append_assoc}
use llm_inference_autoscalin.Router.{RoutingDecision}
use llm_inference_autoscalin.Service.State.{World}
use llm_inference_autoscalin.Service.Stream.{
  StreamEnd, finishes, breaks, StreamEvent, start, delta, end_, error_, Progress, newer,
  read_chunks, stream,
}

-- The texts of the `delta` events.
unfoldable pub delivered : List StreamEvent → List String
delivered [] = []
delivered (start m c d h n p ∷ es) = delivered es
delivered (delta text ∷ es) = text ∷ delivered es
delivered (end_ m u p d h ∷ es) = delivered es
delivered (error_ ∷ es) = delivered es

-- The texts that the provider sends, but for empty ones.
unfoldable pub sent : List StreamChunk → List String
sent [] = []
sent (c ∷ cs) = if c.text == "" then sent cs else c.text ∷ sent cs

read_chunks-delivered :
    (w : World) (d : RoutingDecision) (cs : List StreamChunk) (e : StreamEnd) (leaves : Option ℕ)
    (usage : Option TokenUsage) (pieces : List String)
    → (read_chunks w d cs e leaves usage pieces).pieces
      ≡ pieces ++ delivered (read_chunks w d cs e leaves usage pieces).events
unfolding read_chunks delivered
read_chunks-delivered w d [] finishes leaves usage pieces = sym (append_nil pieces)
read_chunks-delivered w d [] breaks leaves usage pieces = sym (append_nil pieces)
read_chunks-delivered w d (c ∷ cs) e none usage pieces = elim (Bool-cases (c.text == "")) [
  | inl empty ↦
      rw (empty, read_chunks) (read_chunks-delivered w d cs e none (newer c.usage usage) pieces)
  | inr text ↦
      rw (text, read_chunks)
        (read_chunks-delivered w d cs e none (newer c.usage usage) (pieces ++ c.text ∷ [])
          ∙ append_assoc pieces (c.text ∷ []) _)
]
read_chunks-delivered w d (c ∷ cs) e (some zero) usage pieces = elim (Bool-cases (c.text == "")) [
  | inl empty ↦
      rw (empty, read_chunks)
        (read_chunks-delivered w d cs e (some zero) (newer c.usage usage) pieces)
  | inr text ↦ rw (text, read_chunks) refl
]
read_chunks-delivered w d (c ∷ cs) e (some (suc n)) usage pieces =
    elim (Bool-cases (c.text == "")) [
      | inl empty ↦
          rw (empty, read_chunks)
            (read_chunks-delivered w d cs e (some (suc n)) (newer c.usage usage) pieces)
      | inr text ↦
          rw (text, read_chunks)
            (read_chunks-delivered w d cs e (some n) (newer c.usage usage) (pieces ++ c.text ∷ [])
              ∙ append_assoc pieces (c.text ∷ []) _)
    ]

-- A stream that is not cut short has ended by itself and its pieces are all that was sent.
abbrev pub IsWhole : List StreamChunk → StreamEnd → List String → Progress → Type 0
IsWhole cs e pieces p = (p.completed ≡ false) ⊎ ((e ≡ finishes) × (p.pieces ≡ pieces ++ sent cs))

longer :
    (p : Progress) (e : StreamEnd) (text : String) (cs : List StreamChunk) (pieces : List String)
    → IsWhole cs e (pieces ++ text ∷ []) p
    → (p.completed ≡ false) ⊎ ((e ≡ finishes) × (p.pieces ≡ pieces ++ text ∷ sent cs))
longer p e text cs pieces (inl cut) = inl cut
longer p e text cs pieces (inr (ended, all)) =
    inr (ended, all ∙ append_assoc pieces (text ∷ []) (sent cs))

read_chunks-IsWhole :
    (w : World) (d : RoutingDecision) (cs : List StreamChunk) (e : StreamEnd) (leaves : Option ℕ)
    (usage : Option TokenUsage) (pieces : List String)
    → IsWhole cs e pieces (read_chunks w d cs e leaves usage pieces)
unfolding read_chunks sent
read_chunks-IsWhole w d [] finishes leaves usage pieces = inr (refl, sym (append_nil pieces))
read_chunks-IsWhole w d [] breaks leaves usage pieces = inl refl
read_chunks-IsWhole w d (c ∷ cs) e none usage pieces = elim (Bool-cases (c.text == "")) [
  | inl empty ↦
      rw (empty, read_chunks) (read_chunks-IsWhole w d cs e none (newer c.usage usage) pieces)
  | inr text ↦
      rw (text, read_chunks)
        (longer (read_chunks w d cs e none (newer c.usage usage) (pieces ++ c.text ∷ [])) e c.text
          cs pieces
          (read_chunks-IsWhole w d cs e none (newer c.usage usage) (pieces ++ c.text ∷ [])))
]
read_chunks-IsWhole w d (c ∷ cs) e (some zero) usage pieces = elim (Bool-cases (c.text == "")) [
  | inl empty ↦
      rw (empty, read_chunks)
        (read_chunks-IsWhole w d cs e (some zero) (newer c.usage usage) pieces)
  | inr text ↦ rw (text, read_chunks) (inl refl)
]
read_chunks-IsWhole w d (c ∷ cs) e (some (suc n)) usage pieces = elim (Bool-cases (c.text == "")) [
  | inl empty ↦
      rw (empty, read_chunks)
        (read_chunks-IsWhole w d cs e (some (suc n)) (newer c.usage usage) pieces)
  | inr text ↦
      rw (text, read_chunks)
        (longer (read_chunks w d cs e (some n) (newer c.usage usage) (pieces ++ c.text ∷ [])) e
          c.text cs pieces
          (read_chunks-IsWhole w d cs e (some n) (newer c.usage usage) (pieces ++ c.text ∷ [])))
]

-- However a stream ends, the pieces that are billed when the provider reports no usage are exactly
-- the texts that were handed to the client. Unless it counts as cut short, which keeps it out of
-- the cache, the provider's stream has ended by itself, and they are all of its texts.
pub stream-delivered :
    (w : World) (d : RoutingDecision) (cs : List StreamChunk) (e : StreamEnd) (leaves : Option ℕ)
    → let p = stream w d (cs, e) leaves in
      (p.pieces ≡ delivered p.events)
      × ((p.completed ≡ false) ⊎ ((e ≡ finishes) × (p.pieces ≡ sent cs)))
unfolding stream delivered
stream-delivered w d cs e none =
    (read_chunks-delivered w d cs e none none [], read_chunks-IsWhole w d cs e none none [])
stream-delivered w d cs e (some zero) = (refl, inl refl)
stream-delivered w d cs e (some (suc n)) =
    (read_chunks-delivered w d cs e (some n) none [], read_chunks-IsWhole w d cs e (some n) none [])
