-- ===== src/Lib.antt =====
-- Verification of the AgentChains marketplace: the money, trust and workflow core of its backend.
--
-- Agents buy one another's outputs. `marketplace/services/transaction_service.py` takes a purchase
-- from payment to verified delivery and calls the ledger, `marketplace/services/token_service.py`,
-- which moves the price, keeps a platform fee and passes the seller's earnings on to the creator who
-- owns the seller. `marketplace/services/redemption_service.py` pays a creator's balance out.
-- `marketplace/services/circuit_breaker.py`, `marketplace/core/rate_limiter.py` and
-- `marketplace/core/budgets.py` guard the calls between agents and clients, and
-- `marketplace/storage/hashfs.py` keeps the contents of listings under their hashes.
-- `marketplace/core/refresh_tokens.py` keeps the sessions of those who log in,
-- `marketplace/services/role_service.py` says who may do what,
-- `marketplace/services/agent_trust_service.py` rates how far an agent is trusted, and
-- `marketplace/services/event_subscription_service.py` tells agents of events by signed webhooks.
-- `marketplace/services/orchestration_service.py` runs workflows of agents in layers, within budgets, and
-- `marketplace/services/chain_settlement_service.py` pays the agents of a completed one on the ledger;
-- `marketplace/services/deposit_service.py` brings dollars onto it.
--
-- - Base: shared names; `Results` has exceptions as values and service calls as state transitions
--   that raise or return, with the rules by which a postcondition passes through a `do` block; `Table`
--   has the queries of one row and the updates by primary key; `Dict` is a Python dict; `Int` has ℤ.
-- - Ledger: token_service.py, models/token_account.py, core/hashing.py, `to_decimal`. `transfer`,
--   `deposit`, `create_account` and the others bear their names; `book_transfer`, `transfer_new` and
--   `book_royalty` are parts of the bodies. Amounts are integers of micro-dollars, the six places of
--   `to_decimal`; products are exact and then rounded half away from zero. A write to an object that
--   the session has loaded is an update by its id, so two names for one account share its row.
--   `commit` checks the constraints of the tables and raises where one is violated; what raises leaves
--   the database as it was. SHA-256, fresh ids, the clock and the settings are the record `Host`.
-- - Redemption: redemption_service.py and models/redemption.py, on the ledger's tables. `Service` has the
--   processors, `Requests` the calls that create, cancel, reject and approve. An amount that is asked for is a
--   Decimal of any number of places (`Amount`), and what a column of six places stores for one is the
--   parameter `column`. `process_offline` is the three processors that differ in their note only.
-- - Purchase: transaction_service.py and models/transaction.py, with `verify_payment`, `get_listing` and
--   `get_agent`, on the ledger's database. `settle_payment` is the three ways of `confirm_payment`,
--   `complete_purchase` the branch of matching hashes in `verify_delivery`; an empty text is `none`.
-- - Proof: zkp_service.py. `Merkle` has the tree (`chunks_of`, `next_level` and `climb` are the slicing and
--   the two loops; the fuel is the number of bytes or leaves), `Bloom` the filter (`scan` is the loop over
--   the characters), `Schema` the fingerprint of a JSON value, `Publish` the rows and
--   `Verifier` what a buyer asks of them. SHA-256, json and the methods of `str` are parameters; digits
--   and bytes are numbers.
-- - Workflow: orchestration_service.py and models/workflow.py. `Graph` has the layers of the sort, whose
--   fuel, one more than the nodes, is enough since each round takes a node; `Execution` has one
--   execution's row and those of its nodes, `Run` its run. The nodes of a layer run at the same time in
--   the source, on one database session, and one after another here, in the order of the layer: what an
--   interleaving of their commits does to that session is not modelled. Requests to pause, resume and
--   cancel arrive before a layer. What nodes answer is a parameter of the run; `Branches` has what it is
--   by the type of a node, with `Calls` and `Conditions`, over the responses to the requests, the
--   comparisons of Python and the execution of subworkflows. `Definitions` has the rows of workflows and
--   the lookup of one. The tracker is that of Budget.
-- - Deposits: deposit_service.py, on the ledger. A confirmation commits twice, so it is `credit_deposit` and
--   `complete_deposit`, and `Event` has the two apart, with what other callers do in between.
-- - Settlement: chain_settlement_service.py, on the ledger and on the node rows of a workflow. `settle_node`
--   is the body of the loop, with the rest of the loop as an argument; `Outcome` is a report or the error
--   that leaves the loop, each with the database that is left, since every transfer commits. The text of a
--   node's idempotency key, a cut of two hashes, is a number that a parameter gives. `Summary` is the report on
--   the entries that the ledger has of an execution, `Estimate` the estimate before one.
-- - Events: event_subscription_service.py. `Policy` has the table of the events, `Envelope` builds and signs
--   them, `Callback` checks URLs, and `Delivery` has the loop of the attempts, whose body is
--   `attempt_with` with the rest of the loop as an argument, and the fan-out. Texts are numbers, a URL is
--   what `urlsplit` reads of it; the resolver's answers and the responses are parameters. `Retention` redacts
--   old deliveries.
-- - Roles: role_service.py and models/role.py, with `log_auth_event`. `Reach` has the sequences of calls. A name,
--   a description and a permission are numbers (`RoleName`, `Permission`); fresh ids are passed in.
-- - Trust: agent_trust_service.py. `Model` has the rows and the rating, `Service` the attestations and the stage of
--   a memory snapshot, `Challenge` the knowledge challenge, `Injection` the patterns that are searched for. The
--   row that the query for an agent finds is changed in place; texts are numbers but for the sample output.
-- - Session: core/refresh_tokens.py. A call returns the rows that it leaves, as the call that finds a reused
--   token commits and then raises; hashes are distinct, or the new row is refused by the unique column.
-- - Storage: storage/hashfs.py. The directory is a list of the paths that the system opens with their
--   contents, a text a list of codes; `strip_from` is `replace` of the prefix and `str.lower` that of ASCII.
--   `Path.resolve`, the path that the system opens for a name, and the digest are parameters; `Operation`
--   lists what changes it.
-- - Circuit: circuit_breaker.py. RateLimit: rate_limiter.py. Readings of the clock are whole numbers of a
--   unit and are passed in; thresholds are compared without a subtraction, so the truncation of the numbers
--   does not matter.
-- - Budget: budgets.py. Costs and times are floats, whose sum and comparison are the parameter `Floats`;
--   `Coarse` is a small instance with rounding. The costs of a workflow are such floats for the tracker, and
--   decimals of micro-dollars of either sign for the rows, as the source reads both from one answer.
--
-- Other numbers that Python keeps as floats at a boundary (prices, rates, seconds) are decimals or whole
-- numbers of a unit; decimals have at most the six places of the columns that they are stored in. The
-- Decimal context's limit of 28 digits is not reached by the 18 digits of the columns and is left out.
-- Broadcasts, log lines, metrics and memo texts are left out.
--
-- Not modelled: the HTTP, GraphQL, gRPC and WebSocket layers, the agents, the model providers, and the
-- services that call out to payment, storage and search providers; they are glue around the services
-- above or parameters of them. The manifest lists them.
pub mod Base
pub mod Deposits
pub mod Events
pub mod Ledger
pub mod Circuit
pub mod RateLimit
pub mod Budget
pub mod Redemption
pub mod Roles
pub mod Session
pub mod Settlement
pub mod Purchase
pub mod Proof
pub mod Storage
pub mod Trust
pub mod Workflow
