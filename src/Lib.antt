-- ===== src/Lib.antt =====
-- whereToken: where the tokens of coding agents went. The program reads the logs of agents into
-- usage events, keeps confirmed usage in a durable ledger, adds events up into totals, and publishes
-- a snapshot of the totals to a hosted profile and from there to an activity wall on GitHub.
--
-- The parts that are modelled, and where:
--   Event          internal/event/event.go: UsageEvent, its quality and derivation.
--   Ledger.Key     internal/ledger/key.go (Key, pathTail) and splitKey of ledger.go: the identity of
--                  a fact. Texts are byte strings.
--   Ledger.Fact    internal/ledger/ledger.go: fact, factFrom, hashFact, maxFact, superset, event.
--                  SHA-256 is the parameter `sha256_hex`.
--   Ledger.Store   CommitUsage, Import, reduce, upsertFact. The database is a record of its tables;
--                  facts are rows with a unique id, and an SQL statement is a function on the rows.
--   Ledger.Permit  adjustPermit, permitAfter and the statements on the permit in the table meta.
--   Ledger.Tx      a transaction: a rejection gives back the tables as they were.
--   Ledger.Correct Correct and Revert. LIKE compares ASCII letters without case, as SQLite does.
--   Ledger.Omit    NoteComplete and Unseen.
--   Event.Clock    what the ledger uses of Go's time: days of UTC and RFC 3339 stamps.
--   Ledger.Observe internal/ledger/observe.go and NoteAPI: the account-API observations and the
--                  checks of their windows, Chain and Narrow what is read back of them. The time of
--                  a write is the argument `now`.
--   Ledger.CursorLink internal/ledger/cursor_link.go: the association of the Cursor history with
--                  an account, kept in the table meta.
--   Profile        internal/publicprofile: Snapshot (snapshot.go, the fields that the gates read),
--                  Keep (keep.go), Calendar (what is used of Go's time), Publish (publish_policy.go,
--                  correction.go), Refresh (refresh_policy.go), Refresh.Apply (refresh_apply.go),
--                  Retain (AccountFetchFailed, EventsFromDays, ApplyRetainedEvents of retain.go).
--                  The hosted API is a `Publisher`, which answers from the calls made before.
--   Metric         internal/metric/summary.go: Sum (satAdd), Merge (mergeByRequest), Slice
--                  (addSlice, CostSlice), Axes (AggregateAt). The price of an event is the
--                  parameter `charge`.
--   Price          internal/price/price.go: Model (Canonical, Normalize, matchModel), Lookup, Event
--                  and Resolve with its memo. The type of a rate and its arithmetic are parameters.
--   Fuzzy          internal/fuzzy/levenshtein.go: Distance and Closest, on lists of code points.
--   Community      internal/community/rank.go: CompetitionRank, FormatDisplay, FinishStanding. The
--                  shares, which are floats, are set or not set.
--   Sync           internal/syncagg: the scope and the hash of a source (scope.go, hash.go), Batch
--                  (Build of batch.go). HMAC-SHA-256 is the parameter `hmac_hex`. Sync.Store and
--                  Sync.Receive are ApplyUsage and SyncBatch of internal/hosted/store.go; a text of a
--                  table is compared byte by byte, not by a collation.
-- Base holds shared names, Go's int64 with its wrap-around, byte strings, decimal numerals and maps;
-- Tests holds runs on concrete inputs.
--
-- A scan feeds its events to CommitUsage and NoteComplete, and takes from Unseen what the logs no
-- longer have; Key decides which stored fact an event is. Correct lowers a stored fact and leaves a
-- permit for exactly the drop, without which DecidePublication blocks a lower total.
-- NoteCoveredWindow stores a finished window of an account API; AccountSupplement gives a scan the
-- stored days that it did not fetch, and CommitCursorLink binds them to an account.
-- Build adds a device's events up into the daily rows that SyncBatch stores on the service.
-- When an account API cannot be read, ApplyRetainedEvents puts the retained days of the account in
-- place of the local counts.
-- DecideRefresh asks DecidePublication on behalf of a client, and ApplyRefresh acts on the answer.
--
-- Loops are structural recursion on their lists, so none of them needs fuel, except month_from,
-- which walks at most 12 months and is given 11 steps before the last, and match_from, the loop of
-- matchModel: a run raises its start, so that one more run than the id has bytes is enough.
--
-- Not modelled: errors of the database and of the context, created_at of a revision, the order in
-- which Go iterates over a map (no result depends on it), white space beyond ASCII in TrimSpace,
-- zones with a changing offset, instants before year 1, float prices, parsing of JSON, and the
-- parts around the ones above (log readers, HTTP, cards, command line).
pub mod Base
pub mod Event
pub mod Ledger
pub mod Price
pub mod Sync
pub mod Profile
pub mod Metric
pub mod Tests
pub mod Fuzzy
pub mod Community
