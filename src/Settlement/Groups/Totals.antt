-- ===== src/Settlement/Groups/Totals.antt =====
-- The sums over all groups of the aggregation.
use distributed_payment_pipe.Base.{
  ℕ, suc, ◌+◌, ◌≡◌, refl, true, List, [], ◌∷◌, arith, length, inl, inr, Bool-cases,
}
use distributed_payment_pipe.Base.Int.{ℤ, pos, ◌+ℤ◌, int_laws}
use distributed_payment_pipe.Domain.{Transaction}
use distributed_payment_pipe.Settlement.{
  CapturedGroup, Collation, open_group, join_group, has_group, join_row, place, add_row, group_rows,
}
use distributed_payment_pipe.Settlement.Groups.{total_of}

-- The sums over all groups.
abbrev groups_total : List CapturedGroup → ℤ
groups_total [] = pos 0
groups_total (g ∷ gs) = g.total_minor +ℤ groups_total gs

abbrev groups_count : List CapturedGroup → ℕ
groups_count [] = 0
groups_count (g ∷ gs) = g.txn_count + groups_count gs

sums-join_row :
    (t : Transaction) (gs : List CapturedGroup)
    → has_group t gs ≡ true
    → (groups_total (join_row t gs) ≡ t.amount.minor_units +ℤ groups_total gs)
      × (groups_count (join_row t gs) ≡ suc (groups_count gs))
unfolding has_group join_row join_group
sums-join_row t [] h = cc
sums-join_row t (g ∷ gs) h = grind (int_laws, sums-join_row t gs)

sums-place :
    (before : Collation) (g : CapturedGroup) (gs : List CapturedGroup)
    → (groups_total (place before g gs) ≡ g.total_minor +ℤ groups_total gs)
      × (groups_count (place before g gs) ≡ g.txn_count + groups_count gs)
unfolding place
sums-place before g [] = (refl, refl)
sums-place before g (h ∷ gs) = grind (int_laws, sums-place before g gs)

-- The aggregation counts each row once: the totals of all groups add up to the sum of the amounts
-- of all rows, and their counts to the number of rows.
groups_total-group_rows :
    (before : Collation) (rows : List Transaction)
    → (groups_total (group_rows before rows) ≡ total_of rows)
      × (groups_count (group_rows before rows) ≡ length rows)
unfolding group_rows add_row open_group
groups_total-group_rows before [] = (refl, refl)
groups_total-group_rows before (t ∷ rows) =
    elim (Bool-cases (has_group t (group_rows before rows))) [
      | inl old ↦
          rw (old, add_row)
            (ground (
              arith,
              sums-join_row t (group_rows before rows) old,
              groups_total-group_rows before rows,
            ))
      | inr new ↦
          rw (new, add_row)
            (ground (
              arith,
              sums-place before (open_group t) (group_rows before rows),
              groups_total-group_rows before rows,
            ))
    ]
