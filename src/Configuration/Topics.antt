-- ===== src/Configuration/Topics.antt =====
-- cmd/provision-topics/main.go: the topics, and the loop that creates them. What Kafka answers to
-- each request is an argument.
use distributed_payment_pipe.Base.{ℕ, suc, List, [], ◌∷◌, ◌++◌, Option, none, some, if◌then◌else◌}
use distributed_payment_pipe.Text.{Text, codes, text_eq}
use distributed_payment_pipe.Dict.{Dict}
use distributed_payment_pipe.Errors.{Failure, Result, ok, err}

pub record TopicSpec : Type 0 where
  pub name : Text
  pub partitions : ℕ
  pub replication_factor : ℕ
  pub configs : Dict Text

abbrev pub topic_specs : List TopicSpec
topic_specs =
    record {
      name = codes "payments.received";
      partitions = 12;
      replication_factor = 1;
      configs =
          (codes "retention.ms", codes "604800000")
          ∷ (codes "cleanup.policy", codes "delete")
          ∷ (codes "min.insync.replicas", codes "1")
          ∷ [];
    }
    ∷ record {
      name = codes "payments.settled";
      partitions = 12;
      replication_factor = 1;
      configs = (codes "retention.ms", codes "2592000000") ∷ [];
    }
    ∷ record {
      name = codes "payouts.requested";
      partitions = 6;
      replication_factor = 1;
      configs = [];
    }
    ∷ record {
      name = codes "payments.dlq";
      partitions = 3;
      replication_factor = 1;
      configs = (codes "retention.ms", codes "1209600000") ∷ [];
    }
    ∷ []

-- The answer to a request: it failed, or the topic has an error of its own or none.
abbrev pub CreateReply : Type 0
CreateReply = Result (Option Failure)

-- The loop, with the topics that have been created so far: the exit status is 1 at the first error
-- other than that the topic is there.
unfoldable pub provision :
    (ℕ → CreateReply) → ℕ → List TopicSpec → List TopicSpec → ℕ × List TopicSpec
provision reply n [] created = (0, created)
provision reply n (spec ∷ specs) created =
    let next = provision reply (suc n) specs (created ++ spec ∷ []) in
    let skip = provision reply (suc n) specs created in
    elim (reply n) [
      | err e ↦ (1, created)
      | ok none ↦ next
      | ok (some e) ↦
          if text_eq e.message (codes "TOPIC_ALREADY_EXISTS") then skip else (1, created)
    ]
