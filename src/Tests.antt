-- ===== src/Tests.antt =====
-- The parts of the pipeline at concrete inputs.
mod Fixtures
mod StoreTests
mod LedgerTests
mod KafkaTests
mod ConsumerTests
mod SettlementTests
mod RelayTests
mod ConsumeTests
mod IdempotencyTests
mod IntakeTests
mod PipelineTests
mod NormalizeTests
mod SystemTests
mod CommandTests
mod RaceTests
