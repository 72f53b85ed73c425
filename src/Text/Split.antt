-- ===== src/Text/Split.antt =====
-- strings.Split at a separator of one byte.
use distributed_payment_pipe.Base.{
  ℕ, ◌≡◌, ◌≢◌, refl, List, [], ◌∷◌, ◌++◌, arith, ◌==◌, if◌then◌else◌, All,
}
use distributed_payment_pipe.Text.{Text, codes}

-- A byte in front of the first part.
abbrev to_first : ℕ → List Text → List Text
to_first c [] = (c ∷ []) ∷ []
to_first c (p ∷ ps) = (c ∷ p) ∷ ps

unfoldable pub split : ℕ → Text → List Text
split sep [] = [] ∷ []
split sep (c ∷ s) = if c == sep then [] ∷ split sep s else to_first c (split sep s)

-- A text without the separator is one part.
pub split_whole : (sep : ℕ) (s : Text) → All (λ c. c ≢ sep) s → split sep s ≡ s ∷ []
unfolding split
split_whole sep [] h = refl
split_whole sep (c ∷ s) (h, hs) = ground (arith, split_whole sep s hs)

-- Two texts without the separator, around one.
pub split_pair :
    (sep : ℕ) (s t : Text)
    → All (λ c. c ≢ sep) s
    → All (λ c. c ≢ sep) t
    → split sep (s ++ sep ∷ t) ≡ s ∷ t ∷ []
unfolding split
split_pair sep [] t h ht = ground (arith, split_whole sep t ht)
split_pair sep (c ∷ s) t (h, hs) ht = ground (arith, split_pair sep s t hs ht)

commas : split b',' (codes "a,,b,") ≡ codes "a" ∷ [] ∷ codes "b" ∷ [] ∷ []
unfolding split
commas = refl
