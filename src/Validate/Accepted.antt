-- ===== src/Validate/Accepted.antt =====
-- The payments that the validators accept.
use distributed_payment_pipe.Base.{
  ◌≡◌, ◌≢◌, ◌↔◌, ◌⊎◌, false, true, arith, Option, none, some, [], inl, inr, refl,
}
use distributed_payment_pipe.Base.Int.{pos, ◌<ℤ◌}
use distributed_payment_pipe.Text.{Text, codes, text_eq, text_eq_iff}
use distributed_payment_pipe.Text.Space.{trim_space, trim_right, trim_left_from}
use distributed_payment_pipe.Dict.{Dict, lookup, get}
use distributed_payment_pipe.Errors.{nil}
use distributed_payment_pipe.Domain.{Transaction, source_card, source_upi}
use distributed_payment_pipe.Validate.{is_blank, lacks, validate_source, validate_default}

upi_ne_card : source_upi ≢ source_card
upi_ne_card h = ground arith

-- The metadata has a value for the key that is more than white space.
abbrev pub HasValue : Text → Dict Text → Type 0
HasValue key m = (v : Text) × (lookup key m ≡ some v) × (trim_space v ≢ [])

-- There is no metadata at all, or it has a value for the key.
abbrev pub IsGiven : Text → Option (Dict Text) → Type 0
IsGiven key metadata = (metadata ≡ none) ⊎ ((m : Dict Text) × (metadata ≡ some m) × HasValue key m)

is_blank_iff : (s : Text) → (is_blank s ≡ false) ↔ (trim_space s ≢ [])
unfolding is_blank
is_blank_iff s = ground (arith, text_eq_iff (trim_space s) [])

is_blank_nil : is_blank [] ≡ true
unfolding is_blank trim_space trim_right trim_left_from text_eq
is_blank_nil = refl

Option-cases : (o : Option Text) → (o ≡ none) ⊎ ((v : Text) × (o ≡ some v))
Option-cases none = inl refl
Option-cases (some v) = inr (v, refl)

lacks_iff :
    (key : Text) (metadata : Option (Dict Text))
    → (lacks key metadata ≡ false) ↔ IsGiven key metadata
unfolding lacks get
lacks_iff key none = ((λ h. inl refl), (λ h. refl))
lacks_iff key (some m) = elim (Option-cases (lookup key m)) [
  | inl missing ↦ ground (arith, is_blank_nil)
  | inr (v, found) ↦ ground (arith, is_blank_iff v)
]

-- `DefaultValidator` accepts a payment exactly if its currency is more than white space, its amount
-- is positive, the metadata of a card payment, if it has any, has a card number that is more than
-- white space, and that of a UPI payment, if it has any, such a UPI id.
pub validate_default_iff :
    (t : Transaction)
    → (validate_default t ≡ nil) ↔ (
        (trim_space t.amount.currency ≢ [])
        × (pos 0 <ℤ t.amount.minor_units)
        × ((t.source ≢ source_card) ⊎ IsGiven (codes "card_number") t.metadata)
        × ((t.source ≢ source_upi) ⊎ IsGiven (codes "upi_id") t.metadata))
unfolding validate_default validate_source
validate_default_iff t = ground (
  arith,
  is_blank_iff t.amount.currency,
  lacks_iff (codes "card_number") t.metadata,
  lacks_iff (codes "upi_id") t.metadata,
  text_eq_iff t.source source_card,
  text_eq_iff t.source source_upi,
  upi_ne_card,
)
