-- ===== src/Api/Tests.antt =====
-- A configuration that is posted and taken.
use tlswrapper.Base.{lit, true, some, List, ℕ}
use tlswrapper.Base.Int.{pos}
use tlswrapper.Config.Load.{Loads}
use tlswrapper.Config.Tests.{parse_one, snapshot}
use tlswrapper.Server.Tests.{service, replies}
use tlswrapper.Api.{Request, post, serve_config}
use tlswrapper.Api.Answered.{Answered, serve_config-Answered}

abbrev posted : Request
posted = record { method = post; content_length = pos 2; body = some (lit "{}") }

abbrev loads : List ℕ → Loads
loads b = record { decoded = some snapshot; tls_ok = true; logger_ok = true }

serve_config-Answered_example :
    Answered parse_one posted loads
      (some (lit "{}"))
      replies
      service
      (serve_config parse_one posted loads (some (lit "{}")) replies service)
serve_config-Answered_example =
    serve_config-Answered parse_one posted loads (some (lit "{}")) replies service
