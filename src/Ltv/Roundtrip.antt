-- ===== src/Ltv/Roundtrip.antt =====
-- `pack`, then `unpack`.
use socle.Memory.{Memory}
