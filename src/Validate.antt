-- ===== src/Validate.antt =====
-- internal/validate: the field checks, the check of the account in the cache, and the adapter of the
-- Redis client. What Redis answers is an argument; strconv.Quote, for the verb %q, is a parameter.
pub mod Accepted
use distributed_payment_pipe.Base.{
  ℕ, ◌+◌, Bool, true, false, ◌&&◌, ◌||◌, List, [], ◌∷◌, ◌++◌, Option, none, some, leb, ◌==◌,
  if◌then◌else◌,
}
use distributed_payment_pipe.Base.Int.{ℤ, pos, leb_ℤ}
use distributed_payment_pipe.Text.{Text, codes, text_eq}
use distributed_payment_pipe.Text.Space.{trim_space}
use distributed_payment_pipe.Dict.{Dict, get}
use distributed_payment_pipe.Errors.{
  Failure, new_error, wrap, Result, ok, err, Outcome, nil, ◌>>◌, guard,
}
use distributed_payment_pipe.Domain.{Transaction, source_card, source_upi}

unfoldable pub is_blank : Text → Bool
is_blank s = text_eq (trim_space s) []

-- `t.Metadata != nil && strings.TrimSpace(t.Metadata[key]) == ""`
unfoldable pub lacks : Text → Option (Dict Text) → Bool
unfolding is_blank get
lacks key none = false
lacks key (some metadata) = is_blank (get [] key metadata)

-- The switch on the source.
unfoldable pub validate_source : Transaction → Outcome
unfolding lacks
validate_source t =
    if text_eq t.source source_card
    then (if lacks (codes "card_number") t.metadata
        then err (new_error (codes "card_number is required"))
        else nil)
    else if text_eq t.source source_upi
    then (if lacks (codes "upi_id") t.metadata
        then err (new_error (codes "upi_id is required"))
        else nil)
    else nil

-- `DefaultValidator.Validate`
unfoldable pub validate_default : Transaction → Outcome
unfolding validate_source is_blank
validate_default t =
    if is_blank t.amount.currency
    then err (new_error (codes "currency is required"))
    else if leb_ℤ t.amount.minor_units (pos 0)
    then err (new_error (codes "amount must be positive"))
    else validate_source t

abbrev lower_byte : ℕ → ℕ
lower_byte c = if leb b'A' c && leb c b'Z' then c + 32 else c

-- strings.ToLower as far as it can be seen by a comparison with ASCII words without a k: the letters
-- A to Z, and the dotted capital I, whose small letter is i. Other letters stay outside ASCII.
unfoldable pub to_lower : Text → Text
to_lower [] = []
to_lower (a ∷ []) = lower_byte a ∷ []
to_lower (a ∷ b ∷ s) = elim (a == 0xc4 && b == 0xb0) [
  | true ↦ b'i' ∷ to_lower s
  | false ↦ lower_byte a ∷ to_lower (b ∷ s)
]

unfoldable pub account_active_key : Text → Text
account_active_key account_id = codes "account:active:" ++ account_id

abbrev one_of : Text → List Text → Bool
one_of s [] = false
one_of s (w ∷ ws) = text_eq s w || one_of s ws

abbrev active_words : List Text
active_words = codes "1" ∷ codes "true" ∷ codes "active" ∷ codes "enabled" ∷ []

abbrev inactive_words : List Text
inactive_words = codes "0" ∷ codes "false" ∷ codes "inactive" ∷ codes "disabled" ∷ []

-- The answer of the cache for an account.
unfoldable pub account_status : (Text → Text) → Text → Text → Outcome
unfolding to_lower
account_status quote account_id value =
    let word = to_lower (trim_space value) in
    if one_of word active_words
    then nil
    else if one_of word inactive_words
    then err (new_error (codes "account " ++ (account_id ++ codes " is inactive")))
    else err (
        new_error
          (codes "invalid account status " ++ (quote value ++ (codes " for " ++ account_id))))

-- `AccountValidator.Validate`; the client is nil or a lookup.
unfoldable pub validate_account :
    (Text → Text) → Option (Text → Result Text) → Transaction → Outcome
unfolding is_blank account_active_key account_status
validate_account quote client t =
    if is_blank t.account_id
    then err (new_error (codes "account_id is required"))
    else elim client [
      | none ↦ err (new_error (codes "redis client is not configured"))
      | some lookup ↦ elim (lookup (account_active_key t.account_id)) [
        | err e ↦ err (wrap (codes "lookup account status for " ++ (t.account_id ++ codes ": ")) e)
        | ok value ↦ account_status quote t.account_id value
      ]
    ]

-- What GET answers: a value, redis.Nil, or another error.
pub data RedisAnswer : Type 0 where
  found : Text → RedisAnswer
  missing : RedisAnswer
  broken : Failure → RedisAnswer

-- `RedisAdapter.Get`
unfoldable pub adapter_get : (Text → RedisAnswer) → Text → Result Text
adapter_get client key = elim (client key) [
  | found value ↦ ok value
  | missing ↦ err (new_error (codes "cache miss for " ++ key))
  | broken e ↦ err e
]
