-- ===== src/Position/Skips.antt =====
-- `_parse_diff` on an added line that looks like a file header.
use revue.Prelude.Text.{Text}
