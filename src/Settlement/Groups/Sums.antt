-- ===== src/Settlement/Groups/Sums.antt =====
-- Sums of amounts over the rows that pass a test, and the rows that a list of ids names.
use distributed_payment_pipe.Base.{
  ◌≡◌, refl, sym, subst, ◌∙◌, ◌⊎◌, inl, inr, Bool, true, false, ◌&&◌, List, [], ◌∷◌, map, arith,
  keep_if, All, if◌then◌else◌,
}
use distributed_payment_pipe.Base.Int.{ℤ, pos, ◌+ℤ◌}
use distributed_payment_pipe.Text.{Text, text_eq_comm, text_eq_refl}
use distributed_payment_pipe.Domain.{Transaction}
use distributed_payment_pipe.Db.{clashes}
use distributed_payment_pipe.Store.Keys.{IsKeyed}
use distributed_payment_pipe.Settlement.{listed}
use distributed_payment_pipe.Settlement.Groups.{total_of}

unfoldable pub sum_if : (Transaction → Bool) → List Transaction → ℤ
sum_if q [] = pos 0
sum_if q (t ∷ ts) = if q t then t.amount.minor_units +ℤ sum_if q ts else sum_if q ts

pub total_of-keep_if :
    (p q : Transaction → Bool) (rows : List Transaction)
    → total_of (keep_if p (keep_if q rows)) ≡ sum_if (λ t. q t && p t) rows
unfolding sum_if
total_of-keep_if p q [] = refl
total_of-keep_if p q (t ∷ rows) = ground (arith, total_of-keep_if p q rows)

abbrev pub ids_of : List Transaction → List Text
ids_of rows = map (λ (x : Transaction). x.payment_id) rows

listed_none :
    (p q : Transaction → Bool) (t : Transaction) (rows : List Transaction)
    → clashes t rows ≡ false
    → listed t.payment_id (ids_of (keep_if p (keep_if q rows))) ≡ false
unfolding listed clashes
listed_none p q t [] h = refl
listed_none p q t (r ∷ rows) h = ground (arith, listed_none p q t rows)

-- The list names the row exactly if it passes both tests.
abbrev pub IsNamed : (Transaction → Bool) → (Transaction → Bool) → List Text → Transaction → Type 0
IsNamed p q ids t = listed t.payment_id ids ≡ (q t && p t)

IsNamed-later :
    (p q : Transaction → Bool) (t : Transaction) (ids : List Text) (rows : List Transaction)
    → clashes t rows ≡ false
    → All (IsNamed p q ids) rows
    → All (IsNamed p q (t.payment_id ∷ ids)) rows
unfolding listed clashes
IsNamed-later p q t ids [] h n = tt
IsNamed-later p q t ids (r ∷ rows) h n = (
  ground (arith, text_eq_comm t.payment_id r.payment_id, n.0),
  IsNamed-later p q t ids rows (ground arith) n.1,
)

listed-cons : (p : Text) (ids : List Text) → listed p (p ∷ ids) ≡ true
unfolding listed
listed-cons p ids = ground (arith, text_eq_refl p)

keep-cases :
    (p q : Transaction → Bool) (t : Transaction) (rows : List Transaction)
    → let kept = keep_if p (keep_if q rows) in
      ((keep_if p (keep_if q (t ∷ rows)) ≡ t ∷ kept) × ((q t && p t) ≡ true))
      ⊎ ((keep_if p (keep_if q (t ∷ rows)) ≡ kept) × ((q t && p t) ≡ false))
keep-cases p q t rows = ground arith

-- If payment ids are unique, the ids of the rows that pass name these rows and no other.
pub all-IsNamed :
    (p q : Transaction → Bool) (rows : List Transaction)
    → IsKeyed rows
    → All (IsNamed p q (ids_of (keep_if p (keep_if q rows)))) rows
all-IsNamed p q [] k = tt
all-IsNamed p q (t ∷ rows) k =
    let kept = keep_if p (keep_if q rows) in
    let named = all-IsNamed p q rows k.1 in
    elim (keep-cases p q t rows) [
      | inl (e, passes) ↦
          subst (λ ks. All (IsNamed p q (ids_of ks)) (t ∷ rows)) (sym e)
            (
              listed-cons t.payment_id (ids_of kept) ∙ sym passes,
              IsNamed-later p q t (ids_of kept) rows k.0 named,
            )
      | inr (e, fails) ↦
          subst (λ ks. All (IsNamed p q (ids_of ks)) (t ∷ rows)) (sym e)
            (listed_none p q t rows k.0 ∙ sym fails, named)
    ]
