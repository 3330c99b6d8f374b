-- ===== src/Server/Status.antt =====
-- The statuses of internal/httpapi/server.go `statusFor`.
use hubbub.Common.Bytes.{Bytes}
