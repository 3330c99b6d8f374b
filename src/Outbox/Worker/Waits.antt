-- ===== src/Outbox/Worker/Waits.antt =====
-- How long a refused item waits (internal/outbox/worker.go `process` and `reschedule`).
use hubbub.Common.Bytes.{Bytes}
