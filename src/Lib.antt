-- ===== src/Lib.antt =====
-- Hubbub is a notification hub: callers POST a notification, the hub spools it once per channel,
-- and one serial worker per channel delivers it or drops it with a line in the delivery log. This
-- library models the outbox (internal/outbox), which owes every accepted notification exactly one
-- terminal outcome; the HTTP handlers that fill it and wait for outcomes (internal/httpapi); the
-- delivery log that is read back (internal/dlog); the keys and the channels in force
-- (internal/config); and the editor of the TOML configuration files (internal/tomledit), through
-- which the dashboard changes one table of a file and leaves the rest alone.
--
-- The outbox. A channel's spool directory is an association list of names and files; a file holds
-- an item or bytes that do not parse. The worker's lock makes each of its operations one step.
--   Outbox/Name      spool.go: Item, fileName and what is read back from a name
--   Outbox/Spool     spool.go: write, claim, list, load, count, oldestEvictable
--   Outbox/Registry  registry.go: Add, Resolve, Cancel; a Go channel is a number with its capacity
--                    and the outcomes that were sent on it
--   Outbox/Settle    worker.go and engine.go: finish and settle, over the state that the worker and
--                    the engine's sweeps share (spool, registry, delivery log, counters)
--   Outbox/Worker    worker.go: enqueue and next; Worker/Attempt: process and reschedule, with the
--                    errors of internal/adapter; Worker/Sweep: purgeSpool and expireSpool of
--                    engine.go
--   Outbox/Engine    engine.go: SetChannels, Enqueue, reapDisabled and Shutdown over the table of all
--                    channels; Engine/Events interleaves their parts
--   Outbox/Conservation  the account of a request: its files that are still to be settled and its
--                    terminal outcomes, over each operation; Runs interleaves the operations
-- The Go functions keep their names in snake case. Clock readings, the adapter's answer and the
-- system calls that fail are arguments, so every theorem is about all of them. Times are
-- nanoseconds from 0 and are not bounded, except where a name is parsed as an int64.
--
-- The editor. A file is a list of bytes.
--   Tomledit/Lines   the lines of a file, and advance: the state of strings and brackets
--   Tomledit/Header  classify and parseHeader; decoding a quoted key is the TOML package's, so it
--                    is the parameter `unquote`
--   Tomledit/Scan    scan, IDs, HasTableHeader
--   Tomledit/Span    Span, BodySpan, trimTrailing
--   Tomledit/Edit    dominantEOL, normalise, splice and the edits of a body and a block
--   Tomledit/Keys    KeyLines, SetKeyInBlock, MaskStrings
--   Tomledit/Verify  Verify, VerifyNeighbours and equalAny; the TOML package's decoder is the
--                    parameter `decode`
-- The loop of `trimTrailing` has fuel, one more than the line it starts from, which is enough since
-- each round moves up by a line (trim_loop-total in Tomledit/Span/Trim).
--
-- The configuration. A Go map is an association list (Common/Assoc).
--   Config           the checks of channel and caller ids, and the engine's of a directory name
--   Config/Keys      keys.go: ParseKeys, Permitted, Callers
--   Config/Channels  channels.go: ParseChannels, DeclaredTypes and the lists of channels, with the
--                    table of factories of internal/adapter
--   Config/Store     store.go: NewStore and the polls, over what the files hold at each poll
--   Confedit/Apply   internal/confedit/confedit.go: Apply, stage, commit and SweepTemps
--   Confedit/Diff    internal/confedit/diff.go, the diff that an operator confirms. Its walk has the
--                    number of all lines as fuel, which is enough since each round takes a line
--                    (sides-walk in Confedit/Diff/Sides)
-- What the TOML package makes of a file, SHA-256 and the adapters' factories are parameters.
--
-- The delivery log, internal/dlog. Dlog has the record of a line; Dlog/Parse is the fold of
-- parseRecent, Dlog/Page its filter and order, and Dlog/Recent the windows of the file. The loop
-- over the windows has fuel 3, which is enough since the third window is above the ceiling
-- (recent-returns in Dlog/Recent/Window). Decoding a line is the parameter `decode`.
--
-- The requests. Notify is internal/notify: the notification type, its sanitisers, Validate and
-- TruncateBytes. Ratelimit is internal/httpapi/ratelimit.go.
--   Server           server.go of internal/httpapi: the shared state and statusFor
--   Server/Dispatch  dispatch: the targets, the enqueues and the wait; the engine stands behind the
--                    record EngineOps, and what arrives in the window is an argument
--   Server/Handlers  authenticate, handleNotify and handleTest, each guard a function
--   Server/Recent    recent.go: authorizeRecent, parseRecentQuery, handleRecent
--   Adminauth        internal/adminauth: NewGuard, Protect and the providers exe-dev and tailscale
--   Ntfy             internal/adapter/ntfy.go: ParseRetryAfter and how Send reports an answer to the
--                    outbox's worker
--
-- Common holds the tests on numbers, lists and bytes that the parts share; Tests has the theorems at
-- concrete inputs.
--
-- Not modelled: the sleeping and pacing of the worker and of the engine's reaper (a run chooses its
-- next event freely); LoadConfig's checks; the other adapters, the administration pages, the static
-- pages, and the metrics' export, which are mostly I/O and calls of other packages. JSON and TOML
-- decoding are third-party.
pub mod Common
pub mod Confedit
pub mod Config
pub mod Dlog
pub mod Notify
pub mod Adminauth
pub mod Ntfy
pub mod Outbox
pub mod Ratelimit
pub mod Server
pub mod Tomledit
mod Tests
