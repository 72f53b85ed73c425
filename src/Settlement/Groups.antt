-- ===== src/Settlement/Groups.antt =====
-- The aggregation against a description of it that knows no order: what is found under a pair of
-- keys, and what the totals add up to.
pub mod Keys
pub mod Sums
mod Totals
use mathlib.Core.List.{Perm}
use mathlib.Core.List.Perm
use distributed_payment_pipe.Base.{
  ◌≢◌, ◌⊎◌, ℕ, suc, ◌+◌, ◌≡◌, refl, Bool, true, false, ◌&&◌, List, [], ◌∷◌, map, Option, none, some,
  arith, keep_if, length, if◌then◌else◌, inl, inr, Bool-cases,
}
use distributed_payment_pipe.Base.Int.{ℤ, pos, ◌+ℤ◌, int_laws}
use distributed_payment_pipe.Text.{Text, text_eq, text_eq_iff}
use distributed_payment_pipe.Domain.{Transaction}
use distributed_payment_pipe.Settlement.{
  CapturedGroup, Collation, open_group, join_group, has_group, join_row, place, add_row, group_rows,
}

-- The row belongs to the account and the currency.
abbrev pub has_keys : Text → Text → Transaction → Bool
has_keys a c t = text_eq t.account_id a && text_eq t.amount.currency c

-- The group of an account and a currency.
pub find_group : Text → Text → List CapturedGroup → Option CapturedGroup
find_group a c [] = none
find_group a c (g ∷ gs) =
    if text_eq g.account_id a && text_eq g.currency c then some g else find_group a c gs

abbrev pub total_of : List Transaction → ℤ
total_of [] = pos 0
total_of (t ∷ ts) = t.amount.minor_units +ℤ total_of ts

-- What the group of the given rows has to be: none if there is no row.
abbrev pub summary : Text → Text → List Transaction → Option CapturedGroup
summary a c [] = none
summary a c (t ∷ ts) = some (record {
  account_id = a;
  currency = c;
  total_minor = total_of (t ∷ ts);
  txn_count = length (t ∷ ts);
  payment_ids = map (λ (x : Transaction). x.payment_id) (t ∷ ts);
})

-- The effect of one row on the group that is found.
abbrev joined : Transaction → Option CapturedGroup → CapturedGroup
joined t none = open_group t
joined t (some g) = join_group t g

find_group-join_row :
    (a c : Text) (t : Transaction) (gs : List CapturedGroup)
    → has_group t gs ≡ true
    → find_group a c (join_row t gs)
      ≡ (if has_keys a c t then some (joined t (find_group a c gs)) else find_group a c gs)
unfolding find_group join_row has_group join_group
find_group-join_row a c t [] h = cc
find_group-join_row a c t (g ∷ gs) h = ground (
  arith,
  text_eq_iff t.account_id a,
  text_eq_iff t.amount.currency c,
  text_eq_iff g.account_id a,
  text_eq_iff g.currency c,
  text_eq_iff t.account_id g.account_id,
  text_eq_iff t.amount.currency g.currency,
  find_group-join_row a c t gs,
)

find_group-place :
    (before : Collation) (a c : Text) (t : Transaction) (gs : List CapturedGroup)
    → has_group t gs ≡ false
    → find_group a c (place before (open_group t) gs)
      ≡ (if has_keys a c t then some (open_group t) else find_group a c gs)
unfolding find_group place has_group open_group
find_group-place before a c t [] h = ground arith
find_group-place before a c t (g ∷ gs) h = ground (
  arith,
  text_eq_iff t.account_id a,
  text_eq_iff t.amount.currency c,
  text_eq_iff g.account_id a,
  text_eq_iff g.currency c,
  text_eq_iff t.account_id g.account_id,
  text_eq_iff t.amount.currency g.currency,
  find_group-place before a c t gs,
)

find_group_absent :
    (a c : Text) (t : Transaction) (gs : List CapturedGroup)
    → has_group t gs ≡ false
    → has_keys a c t ≡ true
    → find_group a c gs ≡ none
unfolding find_group has_group
find_group_absent a c t [] h k = refl
find_group_absent a c t (g ∷ gs) h k = ground (
  arith,
  text_eq_iff t.account_id a,
  text_eq_iff t.amount.currency c,
  text_eq_iff g.account_id a,
  text_eq_iff g.currency c,
  text_eq_iff t.account_id g.account_id,
  text_eq_iff t.amount.currency g.currency,
  find_group_absent a c t gs,
)

find_group-add_row :
    (before : Collation) (a c : Text) (t : Transaction) (gs : List CapturedGroup)
    → find_group a c (add_row before t gs)
      ≡ (if has_keys a c t then some (joined t (find_group a c gs)) else find_group a c gs)
unfolding add_row
find_group-add_row before a c t gs = elim (Bool-cases (has_group t gs)) [
  | inl old ↦ rw (old, add_row) (find_group-join_row a c t gs old)
  | inr new ↦
      rw (new, add_row)
        (ground (arith, find_group-place before a c t gs new, find_group_absent a c t gs new))
]

+ℤ_zero : (a : ℤ) → a +ℤ pos 0 ≡ a
+ℤ_zero a = omega int_laws

summary-cons :
    (a c : Text) (t : Transaction) (ts : List Transaction)
    → has_keys a c t ≡ true
    → some (joined t (summary a c ts)) ≡ summary a c (t ∷ ts)
unfolding open_group join_group
summary-cons a c t [] h = ground (
  arith,
  +ℤ_zero t.amount.minor_units,
  text_eq_iff t.account_id a,
  text_eq_iff t.amount.currency c,
)
summary-cons a c t (u ∷ ts) h = refl

-- What is found under a pair of keys, read off the rows that have them.
pub find_group_lem :
    (before : Collation) (a c : Text) (rows : List Transaction)
    → find_group a c (group_rows before rows) ≡ summary a c (keep_if (has_keys a c) rows)
unfolding group_rows
find_group_lem before a c [] = unfold find_group in refl
find_group_lem before a c (t ∷ rows) = elim (Bool-cases (has_keys a c t)) [
  | inl yes_keys ↦
      rw
        (
          find_group-add_row before a c t (group_rows before rows),
          yes_keys,
          find_group_lem before a c rows,
        )
        (summary-cons a c t (keep_if (has_keys a c) rows) yes_keys)
  | inr no_keys ↦
      rw (find_group-add_row before a c t (group_rows before rows), no_keys)
        (find_group_lem before a c rows)
]

-- What the group of the rows with an account and a currency tells of them, whatever the order in
-- which Postgres goes through them: nothing is found if there is none, and else the sum of their
-- amounts, their number and a list of their payment ids in some order.
abbrev pub IsSummary : Text → Text → List Transaction → Option CapturedGroup → Type 0
IsSummary a c ts found =
    ((ts ≡ []) × (found ≡ none))
    ⊎ ((g : CapturedGroup) × (found ≡ some g)
        × (ts ≢ [])
        × (g.account_id ≡ a)
        × (g.currency ≡ c)
        × (g.total_minor ≡ total_of ts)
        × (g.txn_count ≡ length ts)
        × Perm g.payment_ids (map (λ (x : Transaction). x.payment_id) ts))
