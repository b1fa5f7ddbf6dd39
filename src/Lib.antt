-- ===== src/Lib.antt =====
-- PoisonTrace looks for address poisoning on Solana: for each wallet of a run it fetches the
-- transactions of a baseline window and of a scan window from a provider, normalizes their transfers,
-- keeps counterparties, and reports inbound zero or dust transfers from addresses that imitate a
-- legitimate counterparty. This library models the core of the scanner, from the provider's
-- transactions to the counters of a run, and the daemon that finds wallets to scan.
--
-- The files and the code they follow (paths from the root of the repository):
--
--   Transactions, Transactions/Normalize - internal/transactions: transfers, fingerprints and
--     NormalizeEnhancedTx. SHA-256 is a parameter.
--   Counterparties - internal/counterparties: MapWalletRelation, DeriveEvent and ApplyEvent.
--   Helius - internal/helius/types.go and IsRetryable of client.go. The client is a record of functions
--     over the state of the world, which the definitions take as a parameter.
--   Errors - Go's error values: a text, and what errors.Is and errors.As find in the chain.
--   Pipeline/Detection - internal/pipeline/detection.go: the gates and EvaluateCandidate.
--   Pipeline/Validation - internal/pipeline/validation.go: an error is a constructor, error_text its text.
--   Pipeline/Candidate, with Lookalike, Gates and Materialize -
--     internal/pipeline/candidate_materialize.go: from observations to candidates.
--   Pipeline/Fetch - internal/pipeline/fetch.go: FetchEnhancedWindow with its retries.
--   Pipeline/Core, Pipeline/Core/Sync - internal/pipeline/core.go: normalizeWindow, mergeReasons and
--     RunWalletCoreSync, which joins fetch, normalization and candidates.
--   Pipeline/Dust - internal/pipeline/wallet_runner.go, buildDustClassifier.
--   Pipeline/Runner, with Run, Steps, Body and Finish - internal/pipeline/wallet_runner.go: RunWallet. Its
--     local variables are the record Locals, which an action changes together with the world; the
--     deferred function is finalize, which reads them after the last action. The store is a record of
--     functions.
--   Pipeline/Orchestrator - internal/pipeline/orchestrator.go: runWallet with its locks, the sum of the
--     outcomes, and deriveRunStatus. The locks, which may not be set, and the runner
--     are parameters.
--   Pipeline/Orchestrator/Run - Run: its checks, the list of wallets, the number of the run, and its end.
--     What its goroutines do is a parameter, which gives the outcomes in the order of arrival.
--   Runs, Wallets - internal/runs and internal/wallets.
--   WalletSource, with Amounts, Summary, Choice, Discovery, Select, Run and Report -
--     internal/walletsource/source.go: Source finds candidates around seeds, fetches and measures them,
--     and accepts or rejects each. Select is the part without fetches, Run threads the provider and the
--     files through it.
--   WalletSource/Blocks, with Scrape - internal/walletsource/block_scrape.go: ScrapeRecentWallets. The
--     client of the chain and the random generator are parameters.
--   Config - internal/config/config.go: an environment is a function from names to texts.
--   Daemon, with Cycle - cmd/scanner/daemon.go: the check of the options, the estimate of a cycle, the
--     daily budget, the limiter, and a cycle, which joins the budget, the scrape, the source and the
--     scan. The clock is an argument.
--   Fixtures, with Corpus - internal/fixtures/validation.go: the signals of a replayed case, and
--     ValidateCorpus. Loading, replay and comparison of a case are parameters.
--   Base, Text, Dict, Time - shared: native numbers and lists, strings as lists of bytes with what the
--     code uses of package strings, maps as association lists, and instants with their text.
--   Tests - concrete inputs and the theorems applied to them.
--
-- How the code is rendered. A time is a number of nanoseconds since Go's zero time, all of them in UTC; a
-- duration that is compared with a recency of days wraps around at 64 bits, as in Go. A loop over a map
-- reads the association list in its order. The loops over pages and over retries count down what is left,
-- so they end and no fuel is guessed; the lookback of a scrape is counted down in the same way. Amounts of
-- any size are integers, and so are sums of counts; the sum of the daily budget, the time to live of a lock
-- and the delay of requests wrap around at 64 bits. strings.ToLower and strings.EqualFold are compared
-- with ASCII texts only, and modelled as far as that can see.
-- A quotient of days is that of whole nanoseconds, and the rate of truncated wallets is kept as the two
-- numbers that Go divides.
--
-- Not modelled: the HTTP clients and the decoding of JSON, the SQL of internal/storage, the HTTP handlers
-- of internal/api, internal/exports, internal/fixtures/replay.go, the command line and the signals of cmd/scanner,
-- the loop of the daemon around its cycles, and the goroutines of Run, which are a
-- parameter.
pub mod Base
pub mod Text
pub mod Dict
pub mod Time
pub mod Errors
pub mod Helius
pub mod Transactions
pub mod Counterparties
pub mod Pipeline
pub mod Runs
pub mod Wallets
pub mod WalletSource
pub mod Config
pub mod Daemon
pub mod Fixtures
pub mod Tests
