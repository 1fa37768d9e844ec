-- ===== src/Signature/Match.antt =====
-- `match` from the start, against a description of what it looks for.
use socle.Signature.Embeds.{Embeds}
