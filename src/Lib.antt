-- ===== src/Lib.antt =====
-- five-api is a gateway in front of LLM providers: customers call it with keys that belong to
-- tenants, it reserves the price of a request, sends the request to a channel of some provider, and
-- charges what the request used. This library models the accounting of backend/app/services and
-- proves it correct.
--
-- Parts and files:
-- - Base: the names, tests, lists, signed integers, JSON values and results that all modules share.
-- - Models: the columns of backend/app/models that the modelled code reads or writes.
-- - Redis: the interface to Redis, a parameter with the documented meaning of the commands as laws.
--   Redis is not part of the repository. `plain`, a store as a function, shows that the laws can be
--   met.
-- - Pricing: backend/app/services/billing_quotes.py and pricing.py. Rounding has Decimal.quantize,
--   Catalog has DEFAULT_MODEL_PRICES and catalog_prices, Tokens has the token estimates, Quotes has
--   the quotes, snapshots, estimates and charges, under the names of the source, with the choice of
--   a price in Quotes/Picking. Bounds and Snapshots hold the proofs.
-- - Limits: Rate has backend/app/services/rate_limit.py, Concurrency has concurrency.py, Windows
--   has spend_windows.py; Counts, Leases and Spending hold the proofs.
-- - Lease: RequestLease and begin_request_budget of backend/app/services/quota.py, over the parts
--   above, Lease/Resets has its monthly reset; Closing, Undone, Steps, Refusals and Monthly hold
--   the proofs.
-- - Routing: Health has the breaker of backend/app/services/channel_health.py, Order has the
--   candidates of backend/app/providers/registry.py, with the draws of Python's generator as
--   parameters, and Fallbacks has its resolve_with_fallbacks, where what a call of
--   resolve_candidates reads is a parameter by the number of the call. Listing has
--   list_available_models. Breaker, Shuffles, Candidates, Counts, Planned, Refused and Listed hold
--   the proofs.
-- - Settings: the normalization of the gateway's settings in
--   backend/app/services/settings_service.py. Shape, Rules, Normal and Targets hold the proofs.
-- - Planning: Allowed has backend/app/services/pre_checks.py, Budgets has budget_usage.py and
--   downgrade.py, Sessions has sticky_session.py, and Route has routing.py. Pressure, Served,
--   Steady and Sticky hold the proofs.
-- - Filters: the scanner of backend/app/services/content_filter.py, over lists of code points.
--   Tails, Keywords and Scanned hold the proofs.
-- - Samples: rows that the examples share.
-- - Access: authenticate_api_key and check_key_tenant of backend/app/services/auth.py and
--   backend/app/utils/ip_check.py; hashing and the ipaddress library are parameters. Access/Granted
--   holds the proofs.
-- - Failover: backend/app/services/proxy.py with what it calls. Texts is the interface to Python's
--   functions on texts. Errors has failover.py, Details has error_detail.py, Outcome has
--   stream_outcomes.py, Usage has the usage and text estimates, Keys has key_pool.py with
--   BaseProvider and channel_stats.py, Billing has _bill_and_log, with what it is given in
--   Billing/Request, Attempts has the loop over one channel and Execute has execute_with_failover;
--   Streaming, Relay and Stream have stream_with_failover. Passes, Keeping, Bills, Settling, Books,
--   Unreached, Reading and Standing say what their steps keep; Bounded, Resends, Ends, Delivery,
--   StreamEnds, Statuses and Meters hold the theorems.
-- - Settlements: backend/app/services/settlements.py and the operator's actions of
--   backend/app/routers/settlements.py. Store has the tables, Reserve, Usage, Apply, Recovery and
--   Operator have the operations under the names of the source. Steps makes each operation one step
--   of a relation, so that workers, recovery and operators interleave as sequences of steps. Rows,
--   Moves, Effects, Outcomes and Kinds say what a step does to a row; Soundness, Accounts, Ledger,
--   Budget, Quota, Replays, Runs and Recovered hold the theorems, and Recovered says what a
--   recovery round may do.
--
-- Conventions: money is a natural number of millionths of a US dollar, the step of the decimal
-- columns; a multiplier is in ten-thousandths; an amount is exact in units of 10^-16 dollars until
-- it is quantized, which the 28 digits of Python's Decimal hold for every amount below 10^12
-- dollars. A signed limit of -1, or a quota of -1 dollar, means none. Times are seconds. A
-- transaction that raises changes nothing, and the row locks make each transaction one step. An
-- exception is a value of Result.
--
-- What a channel answers is a function of the channel and of how often the request was sent before,
-- so that any history of answers is covered. Redis and the database answer a call throughout or not
-- at all, apart for the dispatch.
--
-- A window, and the share of a budget, is compared exactly where the source compares floats. A
-- Redis key that expires is one that is not there; nothing else depends on its expiry, and a
-- lease's own lapse is the score of its member. Not modelled: HTTP, the database driver, metrics
-- and logging; the text of a request and its redaction are parameters. The monthly quota reset and
-- the two writes that _bill_and_log itself makes to the table of settlements are no steps of the
-- relation. A stream's client is a function that says at which line it hangs up. Recursion is
-- structural but for the loop over the attempts at one channel, whose fuel is the channel's retries
-- and keys and one more, since each further attempt uses up a retry or a rotation; a recovery round
-- reads at most a hundred rows of each kind, as the source does.
pub mod Access
pub mod Base
pub mod Failover
pub mod Filters
pub mod Lease
pub mod Limits
pub mod Models
pub mod Planning
pub mod Pricing
pub mod Redis
pub mod Routing
pub mod Samples
pub mod Settings
pub mod Settlements
