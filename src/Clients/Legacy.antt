-- ===== src/Clients/Legacy.antt =====
-- The devices of a file from before the records went by fingerprint.
use redfog.Base.Text.{Text}
