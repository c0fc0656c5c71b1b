-- ===== src/Lib.antt =====
-- A model of the server side of sshoosh, a team chat over SSH.
--
-- Every handler is one database transaction: it loads and checks, writes some tables, and leaves
-- its trace in the feed (events, audit, search, labels, mentions, notifications). A handler here
-- is a function from the database before to `Result` of the database after; an error drops the
-- transaction, so it carries no state. A table is a list of rows, a statement a function on it
-- (`Base.Tables`).
--
-- - Base: the shared names, results, table statements and their lemmas.
-- - Text: src/features/shared/{name,label,utils}.rs and the paste filter of src/app/util.rs, on
--   lists of code points. The two scanners run on fuel, the length of the text; Text.Fuel shows
--   that it is enough.
-- - Db: the tables of migrations/*.sql, one record each, with the columns that are used here.
-- - Feed: src/features/events/db.rs. Feed.Frame says which tables it leaves alone, Feed.Privacy
--   whom it notifies.
-- - Guards: the loads and checks of src/features/shared/permissions.rs and loaders.rs.
-- - Threads: the handlers of threads and comments in src/features/shared/write_ops.rs,
--   permissions.rs and src/features/messages/{state,read_state}.rs. Threads.Writes has their
--   statements, Threads.Counters the invariant of the counters that these keep without recounting,
--   Threads.Safety the handlers themselves.
-- - Dms: the handlers of direct messages in the same files. Dms.Exact has the indices
--   and the unread counts of a conversation, Dms.Safety the handlers themselves.
-- - Accounts: src/features/accounts/state.rs, the handlers on roles, names and keys.
-- - Lease: src/db/lease.rs, src/features/system/runtime.rs and the write check of
--   src/db/executor.rs. A round is one function for what it does to its own node, and is steps of
--   its parts for what several nodes do: the status is set before the commit, and reset when an
--   error comes back. The steps assume serialisable transactions of the database.
-- - Admission: AdmissionLimiter of src/ssh/server.rs, a semaphore and a count for each address.
-- - Abuse: the failure windows and the penalties of AuthAbuseLimiter in the same file. An instant
--   is a number of ticks.
-- - Channels: src/features/channels/state.rs and the handlers of channels in write_ops.rs and
--   permissions.rs. Channels.Steps has the handlers as steps and the one write of each,
--   Channels.Sound and Channels.General what every reachable state keeps.
-- - Composer: ComposerState of src/app/state.rs and the positions of src/app/util.rs. A buffer is a
--   list of code points under a byte cursor; Composer.Zipper is the abstract view, the text on the
--   two sides of the cursor. The loops by words run on fuel, one more than the bytes on the
--   cursor's side, since every round moves it by a byte at least. A panic is `none`.
-- - Sample: a small database, and runs of the handlers on it.
--
-- Identifiers (UUIDs as text) and timestamps are only compared in the source, so both are numbers.
-- SQLite integers are unbounded here; the signed read marks, of which one may be -1, are `ℤ`.
-- The clock, fresh identifiers, the Unicode table of `to_lowercase` and SQLite's `lower` come with
-- `Env`. Two rows of one table with the same key cannot be written: the insertion reports
-- `constraint`.
--
-- Not modelled: the terminal interface beyond its composer, the SSH protocol and the permits of
-- connections that are not logged in yet, the database drivers, invites, onboarding, read-only
-- queries and their cursors, exports, webhooks and start-up.
pub mod Base
pub mod Text
pub mod Db
pub mod Channels
pub mod Composer
pub mod Dms
pub mod Feed
pub mod Guards
pub mod Threads
pub mod Accounts
pub mod Lease
pub mod Abuse
pub mod Admission
mod Sample
