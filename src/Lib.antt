-- ===== src/Lib.antt =====
-- A model of the core of the trading platform, with the theorems that make it correct.
--
-- The platform's agents trade through one broker interface. Below them stand the shared types
-- (trading/core/types.py), the market clock (trading/core/clock.py), symbols and lot sizes
-- (trading/brokers/symbols.py, trading/brokers/lots.py), the cost model (trading/backtest/costs.py)
-- and the paper broker (trading/brokers/paper.py), which trading/backtest/sim_broker.py configures
-- for backtests. This library models those:
--
--   Base       shared helpers: Boolean tests, lists, dicts in insertion order, results that raise
--   Float      Python's floats as an interface of operations, with a concrete instance for tests
--   Types      trading/core/types.py: enumerations, bars and ticks, orders, fills, positions,
--              intents and approvals
--   Clock      trading/core/clock.py: dates, the calendar and its searches, trading days, bars and
--              the simulated clock
--   Symbols    trading/brokers/symbols.py and trading/brokers/lots.py: parsing and making symbols,
--              contract multipliers, the symbol map, the policy on lot sizes
--   Costs      trading/backtest/costs.py: fee schedules and fees
--   Paper      trading/brokers/paper.py and trading/backtest/sim_broker.py
--   Portfolio  trading/agents/portfolio.py: the agents' view of positions, fed by fills
--   Risk       trading/agents/risk.py: the rules, the evaluation of intents, and the handlers
--   Execution  trading/agents/execution.py: the approval gate, slices, pricing, placing, brackets,
--              chasing and reconciliation, and `==` of intents; trading/agents/base.py: the guard
--              of handlers
--   Training   trading/training/splits.py: walk-forward folds with their purge and embargo
--   Tests      runs of the definitions and instances of the theorems
--
-- A class becomes a record and a method a function on it with the method's name. A method of the
-- paper broker that changes the account is an `Action`: it takes the state of `PaperBroker` and
-- returns a value or the error that it raises, with the state as it was left, since what is written
-- before an exception stays written. Paper/Steps gives the writes as a step relation; each call is
-- shown to edit the terms of an order, or not, and then to be a run of steps that edit none, and what
-- the steps keep holds of every history of calls in Paper/Sessions. A fill whose fields are outside
-- the bounds of `Fill` raises before anything is booked. Dates are ordinals, datetimes are microseconds of IST, texts are lists of code
-- points and quantities are native naturals. What a proof needs of floats is a named hypothesis
-- (`OrderLaws`): comparison is a total order and rounding is monotone.
--
-- The searches of the calendar that have a bound in the source keep it: 400 rounds in `next_open`.
-- `next_trading_day` and `previous_trading_day` loop without one, so they take fuel and return
-- `none` where it runs out. The loop of `session_bars` has fuel for one round more than there are
-- whole intervals in the session, which is enough.
--
-- The risk agent approves intents and the execution agent acts on approvals; the bus between them
-- is not modelled, so each has a history of its own messages in any order, and the portfolio that
-- the risk agent reads may change between any two. A handler is one step, though the program's
-- handlers may interleave where they await. The execution agent calls any broker that has the
-- operations of `Router`: the broker's state is a parameter, and what it answers is not restricted.
-- Orders are values; that a broker may change orders that it has handed out is an event of its own.
-- Execution/Steps gives the writes that matter as a step relation, and Execution/Steps/Runs, Reports
-- and Histories show that every handler keeps what the steps keep. A chain of orders that fill at
-- placement, each placing the next slice, has fuel for all the slices of all the plans.
--
-- Not modelled: reading the holidays file and the stored account, the asyncio queues and the
-- market-data calls of the paper broker; the sorted contract lookups of the symbol map; the rate
-- limiter of the execution agent, the other agents, the bus, the Dhan adapter, the backtest runner,
-- the API and the web pages; of training, all but the splits, for which the answers of numpy and
-- pandas are parameters with named laws (`FrameLaws`). `liquidate` is modelled, and is not one of the
-- calls of a history.
pub mod Base
pub mod Float
pub mod Types
pub mod Clock
pub mod Symbols
pub mod Costs
pub mod Paper
pub mod Portfolio
pub mod Risk
pub mod Execution
pub mod Training
pub mod Tests
