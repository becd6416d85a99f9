-- ===== src/Handler/Assemble/Serves.antt =====
-- handler_esi.go: what the client gets of a document with fragments.
use titip.Text.{Text}
use titip.Http.Name
use titip.Esi.Fragment.{Fragment}
