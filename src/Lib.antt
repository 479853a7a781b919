-- ===== src/Lib.antt =====
-- A model of roboTrade, a bot that trades a few algorithms against a brokerage, and what is proved of it.
--
-- The parts and how they meet. A binding ties an algorithm to an account and a cron schedule. The
-- runtime (src/core/bot_runtime.py) keeps one loop for each binding and asks the schedule
-- (src/core/cron.py) at each poll whether a run is due. A run of an allocation algorithm ends in intents,
-- which the order code (src/core/orders.py) turns into share counts, plans as trades, fits to the money
-- that is there and submits. A run of a lifecycle algorithm ends in desired orders (src/core/interfaces.py),
-- which the reconciliation (src/algorithms/reconcile.py) makes the working orders of the broker match.
-- The lifecycle of an option position (src/algorithms/options_flip/lifecycle.py) plans such orders.
-- The paper brokerage (src/brokerages/paper/brokerage.py) fills orders against a book of its own. The
-- pipeline (src/core/pipeline.py) composes the order code for an account: it reads what is held, refuses
-- intents that it cannot price, and sizes, plans, funds and submits the rest. Bursty DCA
-- (src/algorithms/bursty_dca) accrues a budget per symbol, emits intents for it, and reads from the outcome
-- of the pipeline what to draw down. Rally Rotation (src/algorithms/rally_rotation) chooses the names that a
-- book holds and weighs them. Algorithms are found by name in a registry (src/common/registry.py), and
-- payloads of market data are cached until they expire (src/data/provider_cache.py).
--
-- Which file models which part.
--   Base: the shared helpers. Dict is Python's dict, a list of entries in insertion order; Float is the
--     type of floats with the operations that the code calls; Sort is the stable sorted; Exec is a call
--     that changes a state and may raise.
--   Text: the str methods that the code calls, on lists of code points.
--   Cron: parse_cron and its helpers, function by function; Cron/Calendar has the parts of datetime
--     that a schedule reads, Cron/Fire has CronSpec.matches and cron_fire_key.
--   Runtime: RuntimeState and _RuntimeLoop, one poll of _loop after another; Runtime/Bindings has
--     BotRuntime.reconcile, start and stop.
--   Interfaces: OrderRequest and DesiredOrder.
--   Reconcile: reconcile_orders, _submit, _replace, _needs_replacement and _moved.
--   Orders: round_shares and the rows of a batch; Orders/Targets has resolve_target_shares,
--     Orders/Planning has plan_share_orders and plan_position_orders, Orders/Funding has
--     fund_planned_orders and its helpers, Orders/Submission has submit_planned_orders.
--   Paper: the book and its reads; Paper/Fills has submit_order and _update_basis, Paper/Dividends has
--     credit_dividends.
--   Allocation: rank_by_score, allocate_by_score and scale_to_gross of src/algorithms/allocation.py.
--   Journal: record_orders and load_order_journal of src/data/order_journal.py; Journal/Kept has what a read
--     shows.
--   Risk: session_drawdown_breached of src/algorithms/risk.py, over a sequence of observations.
--   Pipeline: sizing_equity, read_snapshot, place_orders, weight_diff, _resulting_positions and
--     _batch_status of src/core/pipeline.py, its data in Pipeline/Account and Pipeline/Outcome;
--     Pipeline/Guards, Pipeline/Accounts and Pipeline/Positions have what is proved of a refusal, of a
--     batch and of the book after it.
--   Bursty: accrue and the factors of planned_order_size of src/algorithms/bursty_dca/algorithm.py;
--     Bursty/Plan has plan, Bursty/Ledger the stored memory and state_after, Bursty/Budgets the budgets of
--     src/algorithms/bursty_dca/config.py.
--   Rally: the clocks and windows of src/algorithms/rally_rotation/memory.py; Rally/Positions has
--     resolve_positions, Rally/Sizing the weights and the damping of src/algorithms/rally_rotation/sizing.py.
--   Portfolio: compute_target_weights and _allocate_with_caps of src/core/portfolio.py; Portfolio/Capped has
--     the loop and Portfolio/Targets the weights.
--   Registry: Registry of src/common/registry.py, its names as they may be spelled in Registry/Spelling, with
--     the ids of src/algorithms/ids.py and the entries of src/algorithms/registry.py.
--   ProviderCache: the payloads and the limits of src/data/provider_cache.py.
--   Osi: the OSI symbol of src/core/options.py, its pattern in Osi/Pattern.
--   Options: a quoted contract of src/core/options.py, and option_price_for of
--     src/algorithms/options_flip/excursion.py.
--   Lifecycle: plan_symbol of src/algorithms/options_flip/lifecycle.py, with the bid, the bracket and the
--     ratchets in Lifecycle/State, Bidding, Bracket and Holding; Lifecycle/Bid and Lifecycle/Held have what is
--     proved of the two branches.
--
-- Choices. A moment is a number of minutes of market time, so that the fire key is the scheduled minute
-- and not its ISO text; the calendar is the proleptic Gregorian one of datetime. The int of a cron field
-- reads ASCII digits with an optional sign, where Python reads other digits too. Floats are abstract: a
-- definition takes any type with the operations, so that no rounding is modelled, and a theorem that
-- needs laws takes them as a record. IsStrikes and IsScaled are the arithmetic that the thousandths of a
-- strike and a scaled weight need. IsOrdered is a total order, which floats that are numbers have.
-- IsExact is exact arithmetic, which holds of floats up to rounding; that the laws can be met is shown
-- by whole numbers, at which the code is also run. The loops of the code
-- run over a list or a given count, but for the while loops of allocate_by_score and _allocate_with_caps:
-- they run on a round for each candidate, and are shown to end within them.
--
-- A set of names is a list with no name twice. Python leaves the order of a set open, and the choice of the
-- weakest name among equal scores follows the list here. A market day is an ordinal and not its ISO text.
-- The texts of symbols and names are brought to capitals or small letters in ASCII.
--
-- What is not modelled. Texts of reasons and log lines are left out of the rows. The brokerage, the store
-- of dividends and the ids of orders are parameters. Threads and locks are left out: a loop is polled, and
-- its polls are in sequence. The operations of datetime, json, the import of modules with the state of the
-- interpreter, tanh and the statistics of closes are parameters. describe_cron, the other data stores, the
-- connectors, the web interface, the scores and gates of Rally Rotation and the statistics of the options
-- algorithm are not modelled.
pub mod Base
pub mod Text
pub mod Cron
pub mod Runtime
pub mod Interfaces
pub mod Reconcile
pub mod Orders
pub mod Options
pub mod Lifecycle
pub mod Paper
pub mod Allocation
pub mod Journal
pub mod Risk
pub mod Pipeline
pub mod Bursty
pub mod Registry
pub mod ProviderCache
pub mod Osi
pub mod Rally
pub mod Portfolio
