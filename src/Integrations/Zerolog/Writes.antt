-- ===== src/Integrations/Zerolog/Writes.antt =====
-- integrations/zerolog/writer.go: the events of the lines that are written.
use duckbug_go.Core.Duck.{Duck}
use duckbug_go.Integrations.Zerolog.Writer.{Writer}
