-- ===== src/Settlement/Groups/Keys.antt =====
-- The groups of an aggregation have different keys, and list the rows that they are made of.
use distributed_payment_pipe.Base.{
  ◌≡◌, refl, true, false, ◌&&◌, List, [], ◌∷◌, none, some, arith, All, inl, inr, Bool-cases,
}
use distributed_payment_pipe.Text.{text_eq, text_eq_comm, text_eq_refl}
use distributed_payment_pipe.Domain.{Transaction}
use distributed_payment_pipe.Settlement.{
  CapturedGroup, Collation, open_group, join_group, has_group, join_row, place, add_row, group_rows,
  same_key,
}
use distributed_payment_pipe.Settlement.Groups.{
  has_keys, find_group, find_group-place, find_group-join_row, find_group_absent,
}

-- No two groups share an account and a currency.
abbrev pub IsDistinct : List CapturedGroup → Type 0
IsDistinct [] = Unit
IsDistinct (g ∷ gs) = (find_group g.account_id g.currency gs ≡ none) × IsDistinct gs

own_keys : (t : Transaction) → has_keys t.account_id t.amount.currency t ≡ true
own_keys t = ground (arith, text_eq_refl t.account_id, text_eq_refl t.amount.currency)

place-IsDistinct :
    (before : Collation) (t : Transaction) (gs : List CapturedGroup)
    → has_group t gs ≡ false
    → IsDistinct gs
    → IsDistinct (place before (open_group t) gs)
unfolding place has_group open_group same_key
place-IsDistinct before t [] h d = (unfold find_group in refl, tt)
place-IsDistinct before t (g ∷ gs) h d =
    elim (Bool-cases (before (t.account_id, t.amount.currency) (g.account_id, g.currency))) [
      | inl first ↦
          rw (first, place)
            (find_group_absent t.account_id t.amount.currency t (g ∷ gs) h (own_keys t), d)
      | inr later ↦
          rw (later, place)
            (
              ground (arith, find_group-place before g.account_id g.currency t gs, d),
              place-IsDistinct before t gs (ground arith) d.1,
            )
    ]

join_row-IsDistinct :
    (t : Transaction) (gs : List CapturedGroup)
    → has_group t gs ≡ true
    → IsDistinct gs
    → IsDistinct (join_row t gs)
unfolding join_row has_group join_group same_key
join_row-IsDistinct t [] h d = cc
join_row-IsDistinct t (g ∷ gs) h d =
    ground (arith, find_group-join_row g.account_id g.currency t gs, join_row-IsDistinct t gs)

pub group_rows-IsDistinct :
    (before : Collation) (rows : List Transaction) → IsDistinct (group_rows before rows)
unfolding group_rows add_row
group_rows-IsDistinct before [] = tt
group_rows-IsDistinct before (t ∷ rows) = elim (Bool-cases (has_group t (group_rows before rows))) [
  | inl old ↦
      rw (old, add_row)
        (join_row-IsDistinct t (group_rows before rows) old (group_rows-IsDistinct before rows))
  | inr new ↦
      rw (new, add_row)
        (place-IsDistinct before t (group_rows before rows) new (group_rows-IsDistinct before rows))
]

-- The keys of two groups differ.
abbrev pub HasOtherKeys : CapturedGroup → CapturedGroup → Type 0
HasOtherKeys g h = (text_eq h.account_id g.account_id && text_eq h.currency g.currency) ≡ false

pub others :
    (g : CapturedGroup) (gs : List CapturedGroup)
    → find_group g.account_id g.currency gs ≡ none
    → All (HasOtherKeys g) gs
unfolding find_group
others g [] h = tt
others g (x ∷ gs) h = (ground arith, others g gs (ground arith))

-- What the search for its keys finds.
abbrev pub IsFound : List CapturedGroup → CapturedGroup → Type 0
IsFound gs g = find_group g.account_id g.currency gs ≡ some g

IsFound-later :
    (g : CapturedGroup) (all gs : List CapturedGroup)
    → All (HasOtherKeys g) gs
    → All (IsFound all) gs
    → All (IsFound (g ∷ all)) gs
unfolding find_group
IsFound-later g all [] d h = tt
IsFound-later g all (x ∷ gs) d h = (
  ground
      (arith, h.0, d.0, text_eq_comm g.account_id x.account_id, text_eq_comm g.currency x.currency),
  IsFound-later g all gs d.1 h.1,
)

-- Each group is the one that is found under its keys.
pub all-IsFound : (gs : List CapturedGroup) → IsDistinct gs → All (IsFound gs) gs
unfolding find_group
all-IsFound [] d = tt
all-IsFound (g ∷ gs) d = (
  ground (arith, text_eq_refl g.account_id, text_eq_refl g.currency),
  IsFound-later g gs gs (others g gs d.0) (all-IsFound gs d.1),
)
