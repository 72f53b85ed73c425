-- ===== src/Text/Space.antt =====
-- strings.TrimSpace: Unicode's white space, in UTF-8, is taken off at both ends. A byte that is no
-- part of a valid encoding is no space.
use distributed_payment_pipe.Base.{
  ℕ, zero, suc, ◌≤◌, ◌<◌, ◌≡◌, refl, Bool, true, false, ◌&&◌, ◌||◌, [], ◌∷◌, ◌++◌, arith, leb, ◌==◌,
  if◌then◌else◌, All,
}
use distributed_payment_pipe.Text.{Text, codes}

-- The bytes 9 to 13 and the blank.
abbrev is_ascii_space : ℕ → Bool
is_ascii_space c = leb 9 c && leb c 13 || c == 32

-- U+0085 and U+00A0 are two bytes long.
abbrev is_space_2 : ℕ → ℕ → Bool
is_space_2 a b = a == 0xc2 && (b == 0x85 || b == 0xa0)

-- U+1680, U+2000 to U+200A, U+2028, U+2029, U+202F, U+205F and U+3000 are three bytes long.
abbrev is_space_3 : ℕ → ℕ → ℕ → Bool
is_space_3 a b c =
    (a == 0xe1 && b == 0x9a && c == 0x80)
    || (a == 0xe2 && b == 0x80 && (leb 0x80 c && leb c 0x8a || c == 0xa8 || c == 0xa9 || c == 0xaf))
    || (a == 0xe2 && b == 0x81 && c == 0x9f)
    || (a == 0xe3 && b == 0x80 && c == 0x80)

-- The number of bytes of the white space at the start, 0 if there is none.
unfoldable pub space_width : Text → ℕ
space_width [] = 0
space_width (a ∷ []) = if is_ascii_space a then 1 else 0
space_width (a ∷ b ∷ []) = if is_ascii_space a then 1 else if is_space_2 a b then 2 else 0
space_width (a ∷ b ∷ c ∷ s) =
    if is_ascii_space a then 1 else if is_space_2 a b then 2 else if is_space_3 a b c then 3 else 0

-- `skip` bytes are left of a white space that has been recognised.
unfoldable pub trim_left_from : ℕ → Text → Text
unfolding space_width
trim_left_from skip [] = []
trim_left_from (suc skip) (x ∷ s) = trim_left_from skip s
trim_left_from zero (x ∷ s) = elim (space_width (x ∷ s)) [
  | zero ↦ x ∷ s
  | suc more ↦ trim_left_from more s
]

abbrev pub is_empty : Text → Bool
is_empty [] = true
is_empty (x ∷ s) = false

-- The longest end that is all white space is taken off.
unfoldable pub trim_right : Text → Text
unfolding trim_left_from
trim_right [] = []
trim_right (x ∷ s) = elim (is_empty (trim_left_from 0 (x ∷ s))) [
  | true ↦ []
  | false ↦ x ∷ trim_right s
]

-- `strings.TrimSpace s`
unfoldable pub trim_space : Text → Text
unfolding trim_right
trim_space s = trim_right (trim_left_from 0 s)

-- A printable ASCII character other than the blank.
abbrev pub IsVisible : ℕ → Type 0
IsVisible c = (33 ≤ c) × (c < 127)

space_width_visible : (x : ℕ) (s : Text) → IsVisible x → space_width (x ∷ s) ≡ 0
unfolding space_width
space_width_visible x [] h = ground arith
space_width_visible x (b ∷ []) h = ground arith
space_width_visible x (b ∷ c ∷ s) h = ground arith

trim_left_visible : (x : ℕ) (s : Text) → IsVisible x → trim_left_from 0 (x ∷ s) ≡ x ∷ s
unfolding trim_left_from
trim_left_visible x s h = ground (arith, space_width_visible x s h)

trim_right_visible : (s : Text) → All IsVisible s → trim_right s ≡ s
unfolding trim_right
trim_right_visible [] h = refl
trim_right_visible (x ∷ s) (h, hs) =
    ground (arith, trim_left_visible x s h, trim_right_visible s hs)

-- Visible characters are kept.
pub trim_space_visible : (s : Text) → All IsVisible s → trim_space s ≡ s
unfolding trim_space trim_right trim_left_from
trim_space_visible [] h = refl
trim_space_visible (x ∷ s) h =
    ground (arith, trim_left_visible x s h.0, trim_right_visible (x ∷ s) h)

spaces : trim_space (codes "  a b" ++ 0xc2 ∷ 0xa0 ∷ 0xe2 ∷ 0x80 ∷ 0x89 ∷ []) ≡ codes "a b"
unfolding trim_space trim_right trim_left_from space_width
spaces = refl
