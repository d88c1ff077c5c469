-- ===== src/Lib.antt =====
-- The execution core of the advisory portfolio engine, which turns an advisory order into at most one
-- order at a broker's demo account, under human approval.
--
-- The parts and how they interact. An order intent is an immutable, hashed wish to buy. A risk
-- decision is made for it, and with a decision a broker command is recorded; a human approves that
-- command; the submission gate checks kill switch, governance, session, decision and approval and
-- opens a window in time; within the window the coordinator claims the one send, calls the broker's
-- adapter, and records the outcome. The execution store is the ledger of all this: a SQLite file
-- whose methods are transactions. A command that was sent and whose outcome is unknown is reconciled
-- by lookups only. The pre-trade evaluator makes the risk decisions, from evidence on the account and the
-- quote; the usage reserve says whether work or a send may go on; executions that the broker reports
-- are staged as fills. The scheduler prepares runs, waits for approvals and never submits; its gate
-- compares its records, and the commands of the execution store, with what is required. Strategies are
-- judged on walk-forward folds, and the registry of experiments keeps what was found and promoted.
--
-- Which file models which part:
--   Domain/Types, Evidence, Command: execution/domain.py. Environment, OrderSide, CommandState and the
--     other enumerations; ALLOWED_TRANSITIONS as `allowed_transitions`; OrderIntent, RiskDecision,
--     Approval, CommandAttempt and BrokerCommand as records of the same fields; `__post_init__` as
--     `validate_…`; BrokerCommand.transition and .with_attempt.
--   Domain/Lifecycle, Attempts: proofs on the transition table and on these two methods.
--   Store/Tables, Intents, Checks, Commands, Submission: execution/store.py. The tables as lists of rows,
--     the newest first; each method of ExecutionStore under its name; `_transaction` as `transaction`
--     of Result, which undoes everything when its body raises; unique and foreign keys as tests that
--     raise where sqlite3.IntegrityError does.
--   Store/Shapes: what a transaction that returned has read and written. Store/Effect: the four
--     effects that the transactions have on commands, events and authorizations. Store/Trace: calls in
--     any order, returned or raised, and the proofs over them.
--   Registry: execution/instruments.py, and the instrument tables of execution/store.py. Its Cases,
--     Listing and Laws hold the proofs.
--   Risk/Limits, Authority, KillSwitch, Gate: risk/pretrade.py (its limits), risk/approval.py,
--     risk/kill_switch.py, risk/submission_gate.py. GateLaws, KillSwitch/Audit and
--     KillSwitch/Chain hold the proofs.
--   Risk/Account, Projection, Versioned, Evaluate: the evidence and the evaluator of risk/pretrade.py, with the
--     division of decimals as a parameter. Evaluate/Admissible says what an
--     accepted order is; Evaluate/Merged, Losses and Accepted hold the proofs.
--   Usage: execution/usage_reserve.py; Usage/Coverage and Usage/Admits hold the proofs, on
--     Decimal/Order.
--   Fills: execution/fill_ingestion.py, with the CSV file as a value; Fills/Columns, Agreement and
--     Repeat hold the proofs.
--   Coordinator/Config, Send, Recover: execution/coordinator.py, with the adapter of brokers/base.py as a
--     parameter whose answers may depend on all that it was sent. Stored, SendLaws, Worlds, OneOrder,
--     Window, Carried and RecoverLaws hold the proofs.
--   Scheduler/Tables, Runs, Waits, Config, Lock, Runner, Qualification: scheduler/store.py, config.py, lock.py,
--     runner.py, qualification.py. ScheduleStore as tables with its methods; ScheduledDemoRunner.run as
--     `run_scheduled`, with the handler that ends a failed run and the release of the lock. Trace and the
--     modules under Runner and Qualification hold the proofs.
--   Strategy/Splits: strategy/validation.py and SplitWindow of strategy/domain.py. Windows, Folds and Order
--     hold the proofs.
--   Strategy/Experiment, ExperimentRegistry: the rest of strategy/domain.py, and strategy/registry.py with the
--     disk as a value. Experiment/Promotion and ExperimentRegistry/Lasting, Latest hold the proofs.
--   Prelude, Result, Int, Decimal, Table: Boolean tests, exceptions as values, integers, exact decimals,
--     and lists of rows with select and update by a key. Tests: concrete runs.
--
-- How the source is read. A UUID and a SHA-256 digest are numbers; canonical JSON and the hash itself are
-- parameters. An instant is a number of microseconds, with no time zone; the clock is an argument.
-- Texts are already stripped and in the case that the constructors give them. A decimal is an exact
-- coefficient with a number of decimal places. An exception is a value of `Error`, with the message
-- shortened at times; `raise` keeps the state reached, `transaction` undoes it. Loops are recursion on
-- lists, but for the loop over walk-forward folds, whose fuel is one more than the number of dates: each
-- round moves the start by a step of at least one date. What is only written for the record
-- (persisted_at, updated_at, event_time) is left out of the tables.
--
-- Not modelled: the order of list_commands, import_advisory_orders (a pandas frame), loading of YAML and
-- JSON, file modes, crashes in the middle of a kill-switch change, the inspection of performance
-- evidence and component times in the evaluator, accounting, pilot mandates, writing of experiment
-- artifacts, the portfolio replay in floating point, the eToro connectors, and the agents, which work on
-- CSV files.
pub mod Prelude
pub mod Result
pub mod Int
pub mod Decimal
pub mod Domain
pub mod Table
pub mod Store
pub mod Risk
pub mod Registry
pub mod Coordinator
pub mod Scheduler
pub mod Strategy
pub mod Usage
pub mod Fills
mod Tests
