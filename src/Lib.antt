-- ===== src/Lib.antt =====
-- RecoveryPilot recovers failed subscription payments. A case is diagnosed, the policy engine decides
-- what is allowed at this moment, the planner picks one strategy and its channels, the executor
-- simulates the strategy on an idempotent ledger, and the scheduler keeps the runs that have to wait.
--
-- The parts, and the files that model them (paths without a directory are those of
-- services/src/services):
--   Enums: shared/src/shared/enums.py and the categories of diagnosis/models.py.
--   Diagnosis: the package diagnosis. Models has the snapshots and features, Calendar Python's dates and the
--     festivals, Features extract_features, Rules the ten rules, Scorer score_confidence and
--     score_priority, Engine diagnose. Primary, Weights and Scores prove.
--   Policy: the package policy. Models has the snapshots, Consent and Cooldown the functions of the
--     files of that name, Facts and Rules the ten rules (rule_already_paid to rule_high_value),
--     Registry their order, Severity and Merge the winner and the channel sets of evaluator.py, Evaluator
--     fold_decision and evaluate, Engine the batch of policy_engine.py. Winner, Conditions, Severities,
--     Decisions, Window, Candidates, Retries, Channels, Outreach and Totals prove.
--   Planner: the package planner. Models has the plan, Strategies select_strategy and the fallbacks,
--     Channels plan_channels, Timing the calendar of timing.py, Schedule schedule, Values the probability and
--     confidence, Engine plan and the batch. Gate, Contact, BusinessDays, Windows, Slots, Soon and Totals
--     prove.
--   Executor: the package executor. Models has the records and the idempotency key, Log the ledger of
--     execution_log.py, Webhooks the replay check, Simulation the simulated charge, Results _finish and
--     _duplicate_result, Runs the seven kinds of run, Engine _execute and execute_many, Summary the
--     counts of a batch. Deliveries, Ledger, Shape, Outcomes, Idempotency, Money, Batch and Totals
--     prove.
--   Scheduler: the package scheduler. Store is the in-memory queue, Table the one of sqlalchemy_store.py,
--     Service the ActionScheduler, Backoff next_backoff. Queue, Claims, Counts and Tables prove.
--   Orchestrator: the package action_orchestrator. Models has the rows, their displayed status and the
--     in-memory store, Gates evaluate_gates, Run the dispatch with _finalize and
--     _backoff_or_dead_letter, Start the method run, Due run_due and replay. Progress, Blocked,
--     Finished and Due prove.
--   Communications: the package communications. Models has the messages and the mock providers, RateLimit
--     the token buckets, Router deliver. Credit, Delivered and Sent prove.
--   Webhooks: the package razorpay_webhooks. Events has the names of the events, Json and Mapping the body
--     of an event, Database the case of an event and apply_recovery_status, Dispatch the orchestrator's
--     apply_provider_webhook, Inbox with Memory and Sql the two inboxes, Service ingest on either of them and
--     the commit of apps/backend/app/services/webhook_service.py, Promise what both inboxes promise.
--     Refinement, Applied, Counted and Effects prove.
--   Pipeline: policy, planner and executor in a row, and in Diagnosed diagnosis and policy.
--   Base: Boolean tests, lists, maxima, sorting and dicts over native numbers.
-- Each part's Samples evaluates it at a concrete case.
--
-- State is passed explicitly: the ledger and the queue are arguments and results. A dict is an
-- association list in the order of insertion, a set a list of which only membership is read. A moment
-- stands for its UTC form: two texts of one instant are not told apart in a key. Python's
-- ints for money, moments (microseconds in UTC) and ids are natural numbers; scores are held in
-- hundredths and probabilities in ten-thousandths, as the code rounds them. A message text is a data
-- constructor with its arguments, or is left out where nothing reads it. All loops are structural.
-- The orchestrator's run calls itself once at most, with the fallback of a waiting strategy, and has
-- fuel for it. A subtraction of a window from a moment stops at zero, where Python raises. The planner
-- reckons on one wall clock, as in a zone without shifts such as its default Asia/Kolkata.
--
-- Parameters: the time zone database (Zone), the hashes uuid5 and sha256 (Hashes), the offset that the
-- random generator draws, Python's repr and UUID parser and the database's LIKE (Outside), the exception that a webhook raises (Env), what other sessions
-- commit meanwhile, and, for the orchestrator, the answers of the Razorpay client and the status
-- of the first delivery (Services). Not modelled: log lines, the catch-all handler of execute (the modelled
-- steps raise nothing), the orchestrator's chips, dashboard counts and SQL store, the service layer over
-- the database, the web application, accounts, explanations, the simulator and the clients of outside
-- services.
pub mod Base
pub mod Communications
pub mod Diagnosis
pub mod Enums
pub mod Policy
pub mod Planner
pub mod Executor
pub mod Scheduler
pub mod Webhooks
pub mod Pipeline
pub mod Orchestrator
