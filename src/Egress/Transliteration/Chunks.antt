-- ===== src/Egress/Transliteration/Chunks.antt =====
-- The chunks of a text are the text, none is too long, and only the last can be short.
use janasunani.Base.{
  ℕ, zero, suc, ◌+◌, ◌*◌, ◌/◌, ◌≡◌, ◌≤◌, ◌<◌, refl, ap, ◌∙◌, List, [], ◌∷◌, ◌++◌, Text, All, length,
  take, drop, length-take, length-drop, arith,
}
use janasunani.Egress.Transliteration.{max_chars, chunks_from, chunks}

abbrev pub concat : List Text → Text
concat [] = []
concat (part ∷ parts) = part ++ concat parts

abbrev pub IsChunk : Text → Type 0
IsChunk chunk = (0 < length chunk) × (length chunk ≤ max_chars)

-- Every part but the last is full.
abbrev pub IsFull : List Text → Type 0
IsFull [] = Unit {0}
IsFull (part ∷ []) = Unit {0}
IsFull (part ∷ next ∷ parts) = (length part ≡ max_chars) × IsFull (next ∷ parts)

pub record IsChunked (text : Text) (parts : List Text) : Type 0 where
  pub whole : concat parts ≡ text
  pub bounded : All IsChunk parts
  pub full : IsFull parts

take-drop : (n : ℕ) (text : Text) → take n text ++ drop n text ≡ text
take-drop zero text = refl
take-drop (suc n) [] = refl
take-drop (suc n) (c ∷ text) = ap (λ t. c ∷ t) (take-drop n text)

chunks_from-concat :
    (left : ℕ) (text : Text) → length text ≤ left * 1000 → concat (chunks_from left text) ≡ text
unfolding chunks_from
chunks_from-concat zero [] h = refl
chunks_from-concat zero (c ∷ text) h = absurd (omega (arith, h))
chunks_from-concat (suc left) text h =
    ap (λ t. take max_chars text ++ t)
      (chunks_from-concat left (drop max_chars text) (omega (arith, length-drop max_chars text)))
    ∙ take-drop max_chars text

chunks_from-IsChunk :
    (left : ℕ) (text : Text)
    → left * 1000 < length text + 1000
    → All IsChunk (chunks_from left text)
unfolding chunks_from
chunks_from-IsChunk zero text h = tt
chunks_from-IsChunk (suc left) text h = (
  (omega (arith, length-take max_chars text), omega (arith, length-take max_chars text)),
  chunks_from-IsChunk left (drop max_chars text) (omega (arith, length-drop max_chars text)),
)

chunks_from-IsFull :
    (left : ℕ) (text : Text) → left * 1000 < length text + 1000 → IsFull (chunks_from left text)
unfolding chunks_from
chunks_from-IsFull zero text h = tt
chunks_from-IsFull (suc zero) text h = tt
chunks_from-IsFull (suc (suc left)) text h = (
  omega (arith, length-take max_chars text),
  chunks_from-IsFull (suc left) (drop max_chars text) (omega (arith, length-drop max_chars text)),
)

pub chunks-IsChunked : (text : Text) → IsChunked text (chunks text)
unfolding chunks
chunks-IsChunked text =
    let left : ℕ = (length text + 999) / 1000 in
    record {
      whole = chunks_from-concat left text (omega arith);
      bounded = chunks_from-IsChunk left text (omega arith);
      full = chunks_from-IsFull left text (omega arith);
    }
