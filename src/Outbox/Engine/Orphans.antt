-- ===== src/Outbox/Engine/Orphans.antt =====
-- The spool of a channel that is gone: `purgeSpool`, and the check at the end of `Enqueue`.
use hubbub.Common.Bytes.{Bytes}
use hubbub.Common.Assoc.{bytes_eq}
use hubbub.Outbox.Engine.{Engine}
