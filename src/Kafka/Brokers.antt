-- ===== src/Kafka/Brokers.antt =====
-- The lists of brokers of internal/kafka/consumer.go and producer.go, and the producer. The franz-go
-- client is a parameter.
use distributed_payment_pipe.Base.{◌≡◌, refl, List, [], ◌∷◌, Option, none, some}
use distributed_payment_pipe.Text.{Text, codes}
use distributed_payment_pipe.Text.Space.{trim_space}
use distributed_payment_pipe.Text.Split.{split}
use distributed_payment_pipe.Errors.{new_error, Result, ok, err}
use distributed_payment_pipe.Kafka.{Publish}

-- The parts that are not blank, without the white space around them.
unfoldable pub trimmed_parts : List Text → List Text
trimmed_parts [] = []
trimmed_parts (p ∷ ps) = elim (trim_space p) [
  | [] ↦ trimmed_parts ps
  | x ∷ s ↦ (x ∷ s) ∷ trimmed_parts ps
]

-- `parseBrokers`
unfoldable pub parse_brokers : Text → List Text
unfolding trimmed_parts
parse_brokers brokers = trimmed_parts (split b',' brokers)

-- `NewConsumer`: the consumer is the list of its brokers.
unfoldable pub new_consumer : Text → Result (List Text)
unfolding parse_brokers
new_consumer brokers = elim (parse_brokers brokers) [
  | [] ↦ err (new_error (codes "no kafka brokers configured"))
  | b ∷ bs ↦ ok (b ∷ bs)
]

-- `NewProducer`: `new_client` is what kgo.NewClient returns for the brokers.
unfoldable pub new_producer {ℓ} :
    {Client : Type ℓ} → (List Text → Result Client) → Text → Result Client
unfolding parse_brokers
new_producer new_client brokers = elim (parse_brokers brokers) [
  | [] ↦ err (new_error (codes "no kafka brokers configured"))
  | b ∷ bs ↦ new_client (b ∷ bs)
]

-- `kafkaProducer.Publish`: a producer without a client is an error. A client is given by what
-- ProduceSync does with a record.
unfoldable pub producer_publish {ℓ} : {S : Type ℓ} → Option (Publish S) → Publish S
producer_publish none topic key payload s =
    (err (new_error (codes "kafka producer is not initialized")), s)
producer_publish (some produce_sync) topic key payload s = produce_sync topic key payload s

three_brokers : new_consumer (codes " a:1, ,b:2,") ≡ ok (codes "a:1" ∷ codes "b:2" ∷ [])
unfolding new_consumer split trim_space
three_brokers = refl
