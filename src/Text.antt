-- ===== src/Text.antt =====
-- Go strings as byte lists, with the functions of the package strings that the pipeline calls:
-- comparison, HasPrefix and Contains.
pub mod Decimal
pub mod Space
pub mod Split
pub mod Number
use Prim.Native.Char.{code}
use Prim.Native.String.{String}
use distributed_payment_pipe.Base.{
  ℕ, ◌≡◌, refl, ◌↔◌, ◌⊎◌, inl, inr, Bool, true, false, ◌&&◌, ◌||◌, List, [], ◌∷◌, ◌++◌, arith, ◌==◌,
  Bool-cases,
}

abbrev pub Text : Type 0
Text = List ℕ

-- The bytes of an ASCII literal. `String` has its own `[]` and `∷`.
abbrev pub codes : String → Text
codes String.[] = []
codes (String.◌∷◌ c s) = code c ∷ codes s

-- `a == b` on strings.
unfoldable pub text_eq : Text → Text → Bool
text_eq [] [] = true
text_eq [] (y ∷ ys) = false
text_eq (x ∷ xs) [] = false
text_eq (x ∷ xs) (y ∷ ys) = (x == y) && text_eq xs ys

eq_of_text_eq : (a b : Text) → text_eq a b ≡ true → a ≡ b
unfolding text_eq
eq_of_text_eq [] [] h = refl
eq_of_text_eq [] (y ∷ ys) h = cc
eq_of_text_eq (x ∷ xs) [] h = cc
eq_of_text_eq (x ∷ xs) (y ∷ ys) h = ground (arith, eq_of_text_eq xs ys)

pub text_eq_refl : (a : Text) → text_eq a a ≡ true
unfolding text_eq
text_eq_refl [] = refl
text_eq_refl (x ∷ xs) = ground (arith, text_eq_refl xs)

-- `ground` is given this at each pair of texts that is compared.
pub text_eq_iff : (a b : Text) → (text_eq a b ≡ true) ↔ (a ≡ b)
text_eq_iff a b = (eq_of_text_eq a b, λ e. cc (text_eq_refl a, e))

pub Text-cases : (a b : Text) → ((a ≡ b) × (text_eq a b ≡ true)) ⊎ (text_eq a b ≡ false)
Text-cases a b = elim (Bool-cases (text_eq a b)) [
  | inl h ↦ inl (eq_of_text_eq a b h, h)
  | inr h ↦ inr h
]

pub text_eq_comm : (a b : Text) → text_eq a b ≡ text_eq b a
text_eq_comm a b = ground (arith, text_eq_iff a b, text_eq_iff b a)

-- `strings.HasPrefix s p`
unfoldable pub has_prefix : Text → Text → Bool
has_prefix s [] = true
has_prefix [] (y ∷ ys) = false
has_prefix (x ∷ xs) (y ∷ ys) = (x == y) && has_prefix xs ys

-- `strings.Contains s p`
unfoldable pub contains : Text → Text → Bool
unfolding has_prefix
contains [] p = has_prefix [] p
contains (x ∷ xs) p = has_prefix (x ∷ xs) p || contains xs p

has_prefix-append : (p rest : Text) → has_prefix (p ++ rest) p ≡ true
unfolding has_prefix
has_prefix-append [] rest = ground arith
has_prefix-append (y ∷ ys) rest = ground (arith, has_prefix-append ys rest)

contains_at_start : (s p : Text) → has_prefix s p ≡ true → contains s p ≡ true
unfolding contains
contains_at_start [] p h = h
contains_at_start (x ∷ xs) p h = ground arith

-- A text contains every text that it was put together from.
pub contains-append : (before p after : Text) → contains (before ++ (p ++ after)) p ≡ true
unfolding contains
contains-append [] p after = contains_at_start (p ++ after) p (has_prefix-append p after)
contains-append (x ∷ xs) p after = ground (arith, contains-append xs p after)
