-- ===== src/Web/Framing/Tests.antt =====
-- Runs of the framing of webserver/HTTPFramingStrategy.cpp.
use dumais_lib.Prelude.{Bool, true, false, [], ◌∷◌, Text, codes, if◌then◌else◌, ◌==◌}
use dumais_lib.Web.Framing.{Receiver}

abbrev message : Text
message = codes "POST /a HTTP/1.1\r\ncontent-length: 12\r\n\r\nhello, world"

abbrev has_no_nul : Text → Bool
has_no_nul [] = true
has_no_nul (c ∷ s) = if c == 0 then false else has_no_nul s

abbrev receiver : Receiver
receiver = record { failed = false; stored = []; messages = []; errors = [] }
