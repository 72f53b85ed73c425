-- ===== src/Tests/IdempotencyTests.antt =====
-- Claims on a Redis that keeps its keys for ever.
use distributed_payment_pipe.Base.{
  ◌≡◌, refl, ◌⊎◌, inl, Bool, true, false, [], ◌∷◌, Option, none, some, arith,
}
use distributed_payment_pipe.Base.Int.{ℤ, pos}
use distributed_payment_pipe.Text.{Text, codes, text_eq_iff}
use distributed_payment_pipe.Errors.{Failure, Result, ok, err, new_error}
use distributed_payment_pipe.Dict.{Dict, lookup, insert, lookup-insert}
use distributed_payment_pipe.Domain.{Transaction}
use distributed_payment_pipe.Idempotency.{RedisClient, claim, claim_all}
use distributed_payment_pipe.Idempotency.Winner.{IsRedis, claim_once}
use distributed_payment_pipe.Tests.Fixtures.{payment}

unfoldable pub set_nx : Text → Text → ℤ → Dict Text → Result Bool × Dict Text
set_nx k v ttl d = elim (lookup k d) [ some w ↦ (ok false, d) | none ↦ (ok true, insert k v d) ]

unfoldable pub get_key : Text → Dict Text → Result Text × Dict Text
get_key k d = elim (lookup k d) [
  | some w ↦ (ok w, d)
  | none ↦ (err (new_error (codes "redis: nil")), d)
]

abbrev pub client : RedisClient (Dict Text)
client = record { set_nx = set_nx; get = get_key }

abbrev pub value : Dict Text → Text → Option Text
value d k = lookup k d

pub client-IsRedis : IsRedis client value
unfolding set_nx get_key
client-IsRedis = record {
  set_taken = λ k v p ttl d h. inl (ground arith);
  set_keeps = λ k j v p ttl d h. ground (arith, lookup-insert k j v d, text_eq_iff k j);
  set_stores = λ k v ttl d h. ground (arith, lookup-insert k k v d, text_eq_iff k k);
  get_keeps = λ k d. ground arith;
  get_finds = λ k p d h. inl (ground arith);
}

claim_once_example :
    let d =
      claim_all client
        (pos 60)
        ((codes "k2", codes "p2") ∷ [])
        (claim client (pos 60) (codes "k1") (codes "p1") []).1 in
    ((claim client (pos 60) (codes "k1") (codes "p3") d).0 ≡ ok (false, codes "p1"))
    ⊎ ((e : Failure) × ((claim client (pos 60) (codes "k1") (codes "p3") d).0 ≡ err e))
unfolding claim set_nx lookup
claim_once_example =
    claim_once client value client-IsRedis (pos 60) (codes "k1") (codes "p1") (codes "p3")
      ((codes "k2", codes "p2") ∷ []) [] refl

abbrev keyless : Transaction
keyless = record payment { idempotency_key = [] }
