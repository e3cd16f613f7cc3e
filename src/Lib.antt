-- ===== src/Lib.antt =====
-- A model of the Amnezia shared panel and what holds of it.
--
-- The panel lets the users of an organisation create and delete their own VPN keys, and
-- administrators manage users, nodes and policy. The control API (apps/control-api) answers the web
-- interface and the command line; the worker (apps/worker) carries out, from a job outbox in the
-- database (packages/db), what has to happen on the VPN nodes. Both change the same rows, each in
-- transactions of its own, and share the state names and bounds of packages/contracts.
--
-- The files:
--   Base        lists, tests and options over native numbers, which every part uses
--   Cidr        apps/worker/src/cidrSet.ts: `mergeRanges` is `merge_ranges`, the loop that cuts one
--               prefix is `cut`, `rangeToCidrs` is `range_to_prefixes`, and `subtractCidrs` is
--               `subtract` on ranges (Cidr/Subtract) and `subtract_cidrs` on texts (Cidr/Text)
--   Keys        the lists of key states in packages/contracts/src/index.ts, packages/db/src/index.ts
--               and apps/control-api/src/postgresRepository.ts
--   Panel       the rows of packages/db/src/schema.ts and the transactions on them:
--     Outbox    the worker's claims, retries, failures, completions, sweeps and pruning
--     Accounts  deactivation (Accounts/Admins: of whom not) and purge of accounts, Arm the single row
--               of the Access sync
--     Owners    what an owner may do with a key, Admin what an administrator may do
--     Create    `createProvisioningKey` with its candidate loop, and apps/control-api/src/nodeOrder.ts
--     Claims    what a claim and a purge guarantee
--     Revokes   the invariant on keys that wait to be revoked, operation by operation: the worker's,
--               with its sweeps (Sweeps), the control API's on keys (Api), on accounts (Accounts), the
--               creation (Creation), and renamed keys, log-ins and removed nodes (Others)
--     Nodes     the transactions that end a node's job
--     Directory `resolveIdentity`, `createUser`, `users/set-role` and the bulk purge: what changes
--               do to the number of administrators (Counts, Changes, Sweeps, Admins), and whom a
--               log-in lets in (Entry)
--     Fleet     quota requests, `deleteNode` and the policy's node lists: the invariant (Rows, Kept,
--               Calls, Runs), decided requests (Decided), and approved ones (Granted)
--     Steps     transactions as steps of one relation, and runs as sequences of steps
--   Quota       apps/control-api/src/nodeQuota.ts
--   PolicyLists apps/control-api/src/policyNodeLists.ts, and `checkRecommendedPrefix` of
--               apps/cli/src/args.ts, which is `check_stored_prefix` (Snapshot); what is accepted
--               (Accepted)
--   NodeOrder   apps/web/lib/node-order.ts and the edits of apps/web/components/node-order-list.tsx:
--               the moves (Moves), the order shown (Shown), what is handed over (Accepted) and what a
--               tick changes (Ticks)
--   Periods     the periods of packages/contracts/src/index.ts and apps/worker/src/periods.ts, and
--               the part of `portal-policy/update` that stores them (Settings)
--   Access      `createAccessSync` of apps/worker/src/accessReconcile.ts: a run is `access_sync_run`
--               (Access/Sync); its endings (Cases), what each outcome leaves (Errors), the rules it
--               keeps (Kept), the accounts it spares (Spared), and the run after a write (Sets, Names,
--               InSync, Settled)
--   Processor   `createJobProcessor` of apps/worker/src/processor.ts: the jobs of a key (Keys), the
--               others and the dispatch (Jobs), what a revoke leaves on the node (Revoked), and each
--               turn of the worker as a run of the steps (Rows, Reached, Sync, Refines)
--   QrFrames    apps/control-api/src/qrFrames.ts, and a reader of the frames (Reader, RoundTrip)
--   Reconcile   the matching of peers to keys in apps/worker/src/processor.ts (Laws, Own)
--   Runner      apps/worker/src/runner.ts and apps/worker/src/scheduler.ts: what a turn leaves (Turns),
--               and the budget of attempts that the claims spend (Budget, Drains)
--   ServiceChecks  apps/worker/src/serviceChecks.ts and `runNodeServiceChecks` of
--               apps/worker/src/telemetry.ts: what an insert leaves (Table), and since when a check is
--               failing (Outage)
--
-- A transaction is a function from the rows before it to the rows after it, with the time and the
-- new uuids it draws as arguments; one that ends in an error returns its code and leaves the rows.
-- A uuid is a number, a time is in milliseconds, a JSON payload is the columns that are read of it,
-- and a bigint is a natural number. The texts of prefixes are lists of character codes.
--
-- The loops are structural, but for two. `first_block` bisects with as much fuel as there are
-- blocks, and `split_from` splits a range with as much fuel as the range has addresses; each step
-- uses at least one, so that neither runs out, as the theorems on `cut` and `range_to_prefixes`
-- show without a hypothesis on fuel.
--
-- Parameters stand for what is not in the repository: `isIP`, `Number` on a prefix length and base64
-- of the runtime, the collator and the order of `sort`, the string methods `toLowerCase` and `trim`,
-- and the node agents, whose state is of any type.
--
-- Not modelled: addresses whose zone id has a dot or a colon, the HTTP clients of nodes and of other
-- services, the HTTP layer and sessions, encryption, the repeated tries of a serializable
-- transaction, the rest of telemetry, the roll-ups and the maintenance, rule feeds apart from the
-- arithmetic on prefixes, the route merge, the rest of the control API's repository, the rest of the
-- web interface and of the command line, the vendored node agent and the infrastructure.
pub mod Access
pub mod Base
pub mod Cidr
pub mod Keys
pub mod NodeOrder
pub mod Panel
pub mod Periods
pub mod PolicyLists
pub mod Processor
pub mod QrFrames
pub mod Quota
pub mod Reconcile
pub mod Runner
pub mod ServiceChecks
