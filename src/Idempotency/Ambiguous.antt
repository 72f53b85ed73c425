-- ===== src/Idempotency/Ambiguous.antt =====
-- Derived keys that do not tell two payments apart.
use distributed_payment_pipe.Base.{◌≡◌, refl, ◌++◌, [], append_assoc}
use distributed_payment_pipe.Text.{Text, codes, text_eq}
use distributed_payment_pipe.Domain.{Transaction}
use distributed_payment_pipe.Idempotency.{fingerprint, derive_key}

-- The payment with another external id and another account.
abbrev with_ids : Transaction → Text → Text → Transaction
with_ids t external account = record t { external_txn_id = external; account_id = account }

fingerprint-with_ids :
    (t : Transaction) (a b c : Text)
    → fingerprint (with_ids t a (b ++ (codes "|" ++ c)))
      ≡ fingerprint (with_ids t (a ++ (codes "|" ++ b)) c)
unfolding fingerprint
fingerprint-with_ids t a b c = simp (append_assoc)

-- Without a client's key, two payments that differ in where a vertical bar stands between the
-- external id and the account have the same key, whatever the hash.
derive_key_ambiguous :
    (sha256_hex : Text → Text) (t : Transaction) (a b c : Text)
    → t.idempotency_key ≡ []
    → derive_key sha256_hex (with_ids t a (b ++ (codes "|" ++ c)))
      ≡ derive_key sha256_hex (with_ids t (a ++ (codes "|" ++ b)) c)
unfolding derive_key text_eq
derive_key_ambiguous sha256_hex t a b c h = rw (h, fingerprint-with_ids t a b c) refl
