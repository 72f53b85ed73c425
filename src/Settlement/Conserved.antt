-- ===== src/Settlement/Conserved.antt =====
-- The batches of an account and a currency against its SETTLED payments.
pub mod Ticks
use distributed_payment_pipe.Base.{
  ◌≡◌, refl, sym, ◌∙◌, Bool, true, false, ◌&&◌, List, [], ◌∷◌, ◌++◌, map, arith, keep_if, All,
  if◌then◌else◌, ◌⊎◌, inl, inr, Bool-cases, some,
}
use distributed_payment_pipe.Base.Int.{ℤ, pos, ◌+ℤ◌, int_laws}
use distributed_payment_pipe.Text.{Text, text_eq, text_eq_iff}
use distributed_payment_pipe.Domain.{Time, State, Transaction, state_captured, state_settled}
use distributed_payment_pipe.Db.{Batch}
use distributed_payment_pipe.Store.Keys.{IsKeyed}
use distributed_payment_pipe.Settlement.{
  CapturedGroup, Collation, group_rows, in_window, same_key, settle_row, listed,
}
use distributed_payment_pipe.Settlement.Groups.{
  has_keys, total_of, summary, find_group, find_group_lem,
}
use distributed_payment_pipe.Settlement.Groups.Keys.{
  IsFound, all-IsFound, group_rows-IsDistinct, HasOtherKeys,
}
use distributed_payment_pipe.Settlement.Groups.Sums.{
  sum_if, ids_of, IsNamed, all-IsNamed, total_of-keep_if,
}

-- The amount of the SETTLED payments of an account in a currency.
unfoldable pub settled_sum : Text → Text → List Transaction → ℤ
settled_sum a c rows = sum_if (λ t. has_keys a c t && text_eq t.state state_settled) rows

-- The totals of its batches.
unfoldable pub batch_sum : Text → Text → List Batch → ℤ
batch_sum a c [] = pos 0
batch_sum a c (b ∷ bs) =
    if text_eq b.account_id a && text_eq b.currency c
    then b.total_minor +ℤ batch_sum a c bs
    else batch_sum a c bs

captured_first : (s : State) → text_eq s state_captured ≡ true → text_eq s state_settled ≡ false
unfolding text_eq
captured_first s h = let e = (text_eq_iff s state_captured).0 h in rw e refl

settled_first : text_eq state_settled state_settled ≡ true
unfolding text_eq
settled_first = refl

module _ (start end : Time) where
  -- The row belongs to the group.
  abbrev pub chosen : CapturedGroup → Transaction → Bool
  chosen g t = in_window start end t && same_key t g

  -- A CAPTURED row that is listed belongs to the group, and one that belongs to it is listed.
  abbrev pub IsListed : CapturedGroup → Transaction → Type 0
  IsListed g t =
      text_eq t.state state_captured ≡ true → listed t.payment_id g.payment_ids ≡ chosen g t

  -- The group is that of the rows of its window that are CAPTURED yet.
  pub record IsGroupOf (rows : List Transaction) (g : CapturedGroup) : Type 0 where
    pub named : All (IsListed g) rows
    pub total : g.total_minor ≡ sum_if (chosen g) rows

  -- What the update does to a row: it settles the rows of the group, which were not SETTLED.
  settle_row-cases :
      (now : Time) (g : CapturedGroup) (t : Transaction)
      → IsListed g t
      → ((chosen g t ≡ true)
          × (text_eq t.state state_settled ≡ false)
          × (settle_row g.payment_ids now t ≡ record t { state = state_settled; updated_at = now }))
        ⊎ ((chosen g t ≡ false) × (settle_row g.payment_ids now t ≡ t))
  unfolding settle_row in_window
  settle_row-cases now g t h = elim (Bool-cases (text_eq t.state state_captured)) [
    | inl captured ↦ ground (arith, captured_first t.state captured, h captured)
    | inr left ↦ ground (arith, left)
  ]

  sum_if-settle :
      (a c : Text) (now : Time) (g : CapturedGroup) (rows : List Transaction)
      → All (IsListed g) rows
      → settled_sum a c (map (settle_row g.payment_ids now) rows)
        ≡ sum_if (λ t. has_keys a c t && chosen g t) rows +ℤ settled_sum a c rows
  unfolding settled_sum sum_if
  sum_if-settle a c now g [] h = omega int_laws
  sum_if-settle a c now g (t ∷ rows) h =
      let later = sum_if-settle a c now g rows h.1 in
      elim (settle_row-cases now g t h.0) [
        | inl (in_group, fresh, e) ↦ grind (int_laws, e, in_group, fresh, later, settled_first)
        | inr (outside, e) ↦ grind (int_laws, e, outside, later)
      ]

  sum_if-keys :
      (a c : Text) (g : CapturedGroup) (rows : List Transaction)
      → sum_if (λ t. has_keys a c t && chosen g t) rows
        ≡ (if text_eq g.account_id a && text_eq g.currency c then sum_if (chosen g) rows else pos 0)
  unfolding sum_if same_key
  sum_if-keys a c g [] = ground arith
  sum_if-keys a c g (t ∷ rows) = ground (
    arith,
    text_eq_iff t.account_id a,
    text_eq_iff t.amount.currency c,
    text_eq_iff g.account_id a,
    text_eq_iff g.currency c,
    text_eq_iff t.account_id g.account_id,
    text_eq_iff t.amount.currency g.currency,
    sum_if-keys a c g rows,
  )

  chosen_once :
      (g h : CapturedGroup) (t : Transaction)
      → HasOtherKeys g h
      → chosen g t ≡ true
      → chosen h t ≡ false
  unfolding same_key
  chosen_once g h t other chosen = ground (
    arith,
    other,
    text_eq_iff t.account_id g.account_id,
    text_eq_iff t.amount.currency g.currency,
    text_eq_iff t.account_id h.account_id,
    text_eq_iff t.amount.currency h.currency,
    text_eq_iff h.account_id g.account_id,
    text_eq_iff h.currency g.currency,
  )

  not_chosen :
      (t : Transaction) (h : CapturedGroup) (now : Time)
      → chosen h (record t { state = state_settled; updated_at = now }) ≡ false
  unfolding in_window text_eq
  not_chosen t h now = refl

  settle-chosen :
      (now : Time) (g h : CapturedGroup) (rows : List Transaction)
      → HasOtherKeys g h
      → All (IsListed g) rows
      → sum_if (chosen h) (map (settle_row g.payment_ids now) rows) ≡ sum_if (chosen h) rows
  unfolding sum_if
  settle-chosen now g h [] other named = refl
  settle-chosen now g h (t ∷ rows) other named =
      let later = settle-chosen now g h rows other named.1 in
      elim (settle_row-cases now g t named.0) [
        | inl (in_group, fresh, e) ↦
            rw (e, not_chosen t h now, chosen_once g h t other in_group) later
        | inr (outside, e) ↦ rw (e, later) refl
      ]

  settle-IsListed :
      (now : Time) (g h : CapturedGroup) (rows : List Transaction)
      → All (IsListed g) rows
      → All (IsListed h) rows
      → All (IsListed h) (map (settle_row g.payment_ids now) rows)
  unfolding text_eq
  settle-IsListed now g h [] named others = tt
  settle-IsListed now g h (t ∷ rows) named others = (
    elim (settle_row-cases now g t named.0) [
      | inl (in_group, fresh, e) ↦ rw e (λ captured. absurd (cc))
      | inr (outside, e) ↦ rw e others.0
    ],
    settle-IsListed now g h rows named.1 others.1,
  )

  -- Settling a group changes nothing for a group with other keys.
  pub settle-IsGroupOf :
      (now : Time) (g h : CapturedGroup) (rows : List Transaction)
      → HasOtherKeys g h
      → All (IsListed g) rows
      → IsGroupOf rows h
      → IsGroupOf (map (settle_row g.payment_ids now) rows) h
  settle-IsGroupOf now g h rows other named of = record {
    named = settle-IsListed now g h rows named of.named;
    total = of.total ∙ sym (settle-chosen now g h rows other named);
  }

pub batch_sum-append :
    (a c : Text) (b : Batch) (bs : List Batch)
    → batch_sum a c (bs ++ b ∷ [])
      ≡ (if text_eq b.account_id a && text_eq b.currency c then b.total_minor else pos 0)
        +ℤ batch_sum a c bs
unfolding batch_sum
batch_sum-append a c b [] = grind int_laws
batch_sum-append a c b (x ∷ bs) = grind (int_laws, batch_sum-append a c b bs)
