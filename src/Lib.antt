-- ===== src/Lib.antt =====
-- Verification of the market regime engine: daily scores of five domains of the crypto market
-- (liquidity, leverage, market stress, capital flows, volatility) are combined into a regime
-- indicator, the probabilities of risk-on and risk-off and a transition risk, which backtests replay
-- over the past.
--
-- The parts, and the files that model them:
--   Float               float64 and package math, an interface `Float F` over any type of values.
--                       `Float.Laws` states what the theorems use of IEEE 754: comparison is a total
--                       order on the numbers and false at NaN, rounding is monotone, 0 and 1 are
--                       exact. `Float.Fixed` is a type of values with all the laws
--   Time                time.Time in UTC, in nanoseconds since the zero time
--   GoMap               maps, as lists of entries in the order in which a range runs over them
--   Errors, Effects     errors as values; methods that call ports, as functions of the history of
--                       what was written before, so that each answer of a port may depend on it
--   Domain              internal/domain: assets, scores, regime states and their `Validate` methods
--   Regime.Config       internal/regime/config.go
--   Regime.Stats, Regime.Aggregate, Regime.Risk, Regime.Drivers
--                       internal/regime/pipeline.go and domains.go: redistributeWeights,
--                       normalizeScores, weightedSumNormalized, computeTransitionRisk,
--                       computeHistoricalRocDiv, finalProbabilities, buildTopDrivers
--   Regime.Smoothing    internal/regime/smoothing.go: emaSmooth
--   Regime.Ports, Regime.Service
--                       internal/regime/port.go and service.go: computeOne, RunOnce, RunBackfill,
--                       Compute, each with every call of a port
--   Regime.Store        internal/infra/postgres/regime: Save with its check, and the merge of the
--                       scores of an asset with those of GLOBAL
--   OptionPricing       pkg/math/blackscholes.go
--   Pipeline            what the domain services repeat: saveFeature, tryComputeZScore and the other
--                       windows, computeRange, the score and its event, and the branches on an error.
--                       `Pipeline.Schedule` has the promise of a service, `Pipeline.Traces`,
--                       `Pipeline.Steps` and `Pipeline.Success` the rules of the proofs
--   Services            internal/{liquidity,leverage,volatility,marketstress,capitalflows}/service.go
--                       and port.go: NewService, RunOnce, RunBackfill, every ingestion, the features of
--                       a day and gatherScoreInputs. Rows has the rows and points of port.go with the
--                       literals that build a row, Interfaces the ports, Ingest and Features the steps
--                       of those names, Run and Success the theorems;
--                       `Services.Leverage.Pages` is the loop over pages of backfillAggregatedOI and
--                       backfillAggregatedLiquidations
--   Orchestrator        cmd/orchestrator/main.go: run with its three modes; `Orchestrator.Settings` the
--                       settings of each service, `Orchestrator.Domains` the six steps
--   Scoring             internal/{liquidity,leverage,volatility,marketstress,capitalflows}: computeScore
--                       of each domain, the formulas of the features, and pkg/math/stats.go
--   Backtest.Classifier internal/backtest/classifier.go: both classifiers
--   Backtest.Ports, Backtest.State, Backtest.Service
--                       internal/backtest/port.go, config.go and service.go: computeOne, Replay and
--                       what they call, and toRegimeDays
--   Backtest.Persistence, Backtest.Events
--                       PersistenceMetrics and EventLeadTimes of internal/backtest/metrics.go
--   Examples, Regime.Service.Examples
--                       concrete inputs
--
-- The orchestrator runs the services in turn. Each domain service ingests raw rows from its
-- providers, derives features from the stored rows, and a score from the stored features with the
-- functions of `Scoring`; every write and every event is an action of the history. The regime service
-- reads the scores through its ports, computes with the functions of `Regime`, and writes states
-- through its ports again.
--
-- In the services a provider that may be nil is an `Option`, and a repository's query may answer in
-- any way that depends on what was written before. An aggregate id is the list of its parts, not the
-- printed text. A range over the map of providers runs in the order of a list that is a parameter. A
-- series that is not found is read as empty. The expiry of an option counts in whole days.
--
-- Loops are structural recursion over lists of assets, domains and days. Two loops count rounds:
-- `days_between` gives the loop over days more than it can use, as its theorem shows, and the loop over
-- pages has the ten pages of the code. The loop of the daemon runs over the list of its ticks. The
-- windows and the offset of the publication are natural numbers, so negative settings of these are outside the
-- model; the smoothing span is an integer. A clock reading is in UTC, and a shift of a date stops at
-- the year 1. Error texts are shortened to their fixed part.
--
-- Not modelled: SQL and row conversions (internal/storage, internal/infra), web clients
-- (internal/repo, internal/providers, pkg/httpclient), the gateway, configuration files and the other
-- commands; ComputeMetrics and Sweep of the backtest with its other metrics; the text that
-- registerConfig stores; the hash of a snapshot, which is a parameter. The loop of the orchestrator runs
-- over any list of steps; that the six steps write to one database is not modelled, so each stands over
-- the actions of its own service.
pub mod Prelude
pub mod Float
pub mod Time
pub mod Errors
pub mod Effects
pub mod GoMap
pub mod Domain
pub mod Regime
pub mod Scoring
pub mod Backtest
pub mod OptionPricing
pub mod Pipeline
pub mod Services
pub mod Orchestrator
pub mod Examples
