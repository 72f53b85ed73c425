-- ===== src/Dict.antt =====
-- Go's `map[string]V` as an association list, and its reads and writes.
use distributed_payment_pipe.Base.{
  ◌≡◌, refl, Option, none, some, List, [], ◌∷◌, arith, if◌then◌else◌,
}
use distributed_payment_pipe.Text.{Text, text_eq, text_eq_iff}

abbrev pub Dict {ℓ} : Type ℓ → Type ℓ
Dict V = List (Text × V)

module _ {ℓ} {V : Type ℓ} where
  -- `v, exists := m[k]`
  unfoldable pub lookup : Text → Dict V → Option V
  lookup k [] = none
  lookup k ((j, v) ∷ m) = if text_eq j k then some v else lookup k m

  -- `m[k] = v`
  unfoldable pub insert : Text → V → Dict V → Dict V
  insert k v [] = (k, v) ∷ []
  insert k v ((j, w) ∷ m) = if text_eq j k then (k, v) ∷ m else (j, w) ∷ insert k v m

  -- `m[k]`, which is the zero value for a missing key.
  unfoldable pub get : V → Text → Dict V → V
  unfolding lookup
  get zero_value k m = elim (lookup k m) [ none ↦ zero_value | some v ↦ v ]

  -- `for k, v := range new { m[k] = v }`. The keys of a map are distinct, so the order of the
  -- range does not matter.
  unfoldable pub update_all : Dict V → Dict V → Dict V
  unfolding insert
  update_all [] m = m
  update_all ((k, v) ∷ new) m = update_all new (insert k v m)

  pub lookup-insert :
      (k j : Text) (v : V) (m : Dict V)
      → lookup j (insert k v m) ≡ (if text_eq k j then some v else lookup j m)
  unfolding lookup insert
  lookup-insert k j v [] = refl
  lookup-insert k j v ((i, w) ∷ m) =
      ground (arith, text_eq_iff k j, text_eq_iff i k, text_eq_iff i j, lookup-insert k j v m)
