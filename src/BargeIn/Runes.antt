-- ===== src/BargeIn/Runes.antt =====
-- Barge-ins of a single rune: `EvaluateBargeIn` and `looksLikeBackchannel` of
-- internal/voice/barge_in.go together.
use agent_server.Text.{Text}
use agent_server.Floats.{Floats}
