-- ===== src/Tests/SystemTests.antt =====
-- All processes over one database: a payment is submitted twice, its event relayed and delivered
-- twice, and a window settled.
use distributed_payment_pipe.Base.{◌≡◌, some, ℕ, inl, refl, List, [], ◌∷◌}
use distributed_payment_pipe.Base.Int.{pos}
use distributed_payment_pipe.Text.{Text, codes}
use distributed_payment_pipe.Dict.{Dict}
use distributed_payment_pipe.Ledger.ZeroSum.{balance}
use distributed_payment_pipe.System.{Event, handle_all}
use distributed_payment_pipe.System.Consistent.{IsConsistent}
use distributed_payment_pipe.System.Reachable.{handle_all-IsConsistent}
use distributed_payment_pipe.System.Lifecycle.{Reach, handle_all-Reach}
use distributed_payment_pipe.System.Paid.{IsAccounted, handle_all-IsAccounted}
use distributed_payment_pipe.Settlement.Conserved.{settled_sum, batch_sum}
use distributed_payment_pipe.Settlement.Groups.Sums.{sum_if}
use distributed_payment_pipe.Db.{select_payment}
use distributed_payment_pipe.System.Backed.{IsBacked, events_of, rows_of, handle_all-IsBacked}
use distributed_payment_pipe.System.Audited.{IsAudited, replay}
use distributed_payment_pipe.System.Audited.Always.{handle_all-IsAudited}
use distributed_payment_pipe.System.Held.{terms_of, terms_of-handle_all}
use distributed_payment_pipe.Domain.{Transaction, state_validated}
use distributed_payment_pipe.Text.{text_eq}
use distributed_payment_pipe.Tests.Fixtures.{empty, payment, received}
use distributed_payment_pipe.Tests.IntakeTests.{server, packages, request, call, start}
use distributed_payment_pipe.Tests.PipelineTests.{codec, publish, marshal, world}
use distributed_payment_pipe.Tests.RelayTests.{replies}
use distributed_payment_pipe.Tests.SettlementTests.{input, engine}

pub empty-IsConsistent : IsConsistent empty
unfolding balance
empty-IsConsistent = record { keyed = tt; windows = tt; booked = λ p. inl refl; zero_sum = refl }

abbrev events : List (Event (Dict Text) ℕ)
events =
    Event.submits call (request (codes "k1")) start.redis
    ∷ Event.submits call (request (codes "k1")) start.redis
    ∷ Event.relays replies 0
    ∷ Event.delivers (codes "p1") (codes "{}") (pos 40) world
    ∷ Event.delivers (codes "p1") (codes "{}") (pos 40) world
    ∷ Event.ticks (record { input = input; at = pos 20 }) engine
    ∷ []

handle_all-IsConsistent_example :
    IsConsistent (handle_all packages server publish marshal codec events empty)
handle_all-IsConsistent_example =
    handle_all-IsConsistent packages server publish marshal codec events empty empty-IsConsistent

abbrev terms : Transaction
terms = record payment { state = []; updated_at = pos 0 }

payment_held : terms_of (codes "p1") received.transactions ≡ some terms
unfolding terms_of text_eq
payment_held = refl

terms_of-handle_all_example :
    terms_of
      (codes "p1")
      (handle_all packages server publish marshal codec events received).transactions
    ≡ some terms
terms_of-handle_all_example =
    terms_of-handle_all packages server publish marshal codec events received (codes "p1") terms
      payment_held

empty-IsAccounted : IsAccounted empty
unfolding settled_sum batch_sum sum_if
empty-IsAccounted = record { keyed = tt; paid = λ a c. refl }

handle_all-IsAccounted_example :
    IsAccounted (handle_all packages server publish marshal codec events empty)
handle_all-IsAccounted_example =
    handle_all-IsAccounted packages server publish marshal codec events empty empty-IsAccounted

payment_found : select_payment (codes "p1") received.transactions ≡ some payment
unfolding select_payment text_eq
payment_found = refl

handle_all-Reach_example :
    (u : Transaction) × (select_payment
        (codes "p1")
        (handle_all packages server publish marshal codec events received).transactions
      ≡ some u)
    × Reach payment.state u.state
handle_all-Reach_example =
    handle_all-Reach packages server publish marshal codec events received (codes "p1") payment
      payment_found

empty-IsBacked : IsBacked empty
unfolding events_of rows_of
empty-IsBacked p = refl

handle_all-IsBacked_example :
    IsBacked (handle_all packages server publish marshal codec events empty)
handle_all-IsBacked_example =
    handle_all-IsBacked packages server publish marshal codec events empty empty-IsBacked

empty-IsAudited : IsAudited empty
unfolding replay select_payment
empty-IsAudited = record { keyed = tt; logged = λ p. (state_validated, refl, refl) }

handle_all-IsAudited_example :
    IsAudited (handle_all packages server publish marshal codec events empty)
handle_all-IsAudited_example =
    handle_all-IsAudited packages server publish marshal codec events empty empty-IsAudited
