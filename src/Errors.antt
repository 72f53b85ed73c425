-- ===== src/Errors.antt =====
-- Go errors as values: a message, and the sentinels that `errors.Is` finds by unwrapping.
use distributed_payment_pipe.Base.{
  ◌≡◌, refl, ◌⊎◌, inl, inr, Bool, true, false, ◌||◌, List, [], ◌∷◌, ◌++◌,
}
use distributed_payment_pipe.Text.{Text}

-- The sentinels that the code compares with: kafka.ErrNonRetryable and pgx.ErrNoRows.
pub data Sentinel : Type 0 where
  non_retryable no_rows : Sentinel

pub record Failure : Type 0 where
  pub message : Text
  pub chain : List Sentinel

same_sentinel : Sentinel → Sentinel → Bool
same_sentinel non_retryable non_retryable = true
same_sentinel non_retryable no_rows = false
same_sentinel no_rows non_retryable = false
same_sentinel no_rows no_rows = true

in_chain : List Sentinel → Sentinel → Bool
unfolding same_sentinel
in_chain [] t = false
in_chain (s ∷ ss) t = same_sentinel s t || in_chain ss t

-- `errors.Is(err, target)`
unfoldable pub errors_is : Failure → Sentinel → Bool
unfolding in_chain
errors_is e t = in_chain e.chain t

-- `errors.New(message)`
abbrev pub new_error : Text → Failure
new_error m = record { message = m; chain = [] }

-- `fmt.Errorf("…: %w", err)`: the text before the verb is put in front, and the chain is kept.
abbrev pub wrap : Text → Failure → Failure
wrap prefix e = record { message = prefix ++ e.message; chain = e.chain }

-- A result with an error: `(A, error)`.
pub data Result {ℓ} (A : Type ℓ) : Type ℓ where
  ok : A → Result A
  err : Failure → Result A

-- A call that returns only an `error`, `nil` being `ok tt`.
abbrev pub Outcome : Type 0
Outcome = Result (Unit {0})

abbrev pub nil : Outcome
nil = ok tt

infixl 5 ◌>>=◌ ◌>>◌
abbrev pub ◌>>=◌ {ℓ κ} : {A : Type ℓ} {B : Type κ} → Result A → (A → Result B) → Result B
ok a >>= f = f a
err e >>= f = err e

abbrev pub ◌>>◌ {ℓ} : {B : Type ℓ} → Outcome → Result B → Result B
m >> k = m >>= λ _. k

abbrev pub guard : Bool → Failure → Outcome
guard true e = nil
guard false e = err e

-- What a call to a service did, seen from the caller: it was done, or it failed and did nothing.
pub data Reply : Type 0 where
  done : Reply
  failed : Failure → Reply

-- What a commit did: it was applied; or it failed and was rolled back; or the connection failed
-- after it had been applied, and the caller sees an error.
pub data CommitReply : Type 0 where
  committed : CommitReply
  refused : Failure → CommitReply
  unconfirmed : Failure → CommitReply

abbrev pub commit_outcome : CommitReply → Outcome
commit_outcome committed = nil
commit_outcome (refused e) = err e
commit_outcome (unconfirmed e) = err e

-- The value that is stored after the commit, from those before and inside the transaction.
abbrev pub after_commit {ℓ} : {A : Type ℓ} → CommitReply → A → A → A
after_commit committed before inside = inside
after_commit (refused e) before inside = before
after_commit (unconfirmed e) before inside = inside

-- Go's `wrap` around whatever outcome: `if err != nil { return fmt.Errorf("…: %w", err) }`.
abbrev pub context {ℓ} : {A : Type ℓ} → Text → Result A → Result A
context prefix (ok a) = ok a
context prefix (err e) = err (wrap prefix e)

-- A service's reply before the effect that it allows.
abbrev pub reply_outcome : Reply → Outcome
reply_outcome done = nil
reply_outcome (failed e) = err e

-- A split on a result that keeps the equation.
pub Result-cases {ℓ} :
    {A : Type ℓ} (r : Result A) → ((a : A) × (r ≡ ok a)) ⊎ ((e : Failure) × (r ≡ err e))
Result-cases (ok a) = inl (a, refl)
Result-cases (err e) = inr (e, refl)

pub Outcome-cases : (o : Outcome) → (o ≡ nil) ⊎ ((e : Failure) × (o ≡ err e))
Outcome-cases (ok tt) = inl refl
Outcome-cases (err e) = inr (e, refl)

pub Reply-cases : (r : Reply) → (r ≡ done) ⊎ ((e : Failure) × (r ≡ failed e))
Reply-cases done = inl refl
Reply-cases (failed e) = inr (e, refl)

pub CommitReply-cases :
    (r : CommitReply)
    → (r ≡ committed) ⊎ ((e : Failure) × (r ≡ refused e)) ⊎ ((e : Failure) × (r ≡ unconfirmed e))
CommitReply-cases committed = inl refl
CommitReply-cases (refused e) = inr (inl (e, refl))
CommitReply-cases (unconfirmed e) = inr (inr (e, refl))

-- Both parts of a sequence that returns a value.
pub then_ok {ℓ} :
    {B : Type ℓ} (o : Outcome) (r : Result B) (b : B) → (o >> r) ≡ ok b → (o ≡ nil) × (r ≡ ok b)
then_ok (ok tt) r b h = (refl, h)
then_ok (err e) r b h = absurd (cc)
