-- ===== src/Examples/Requests.antt =====
-- A request whose handler panics, behind the middleware.
use ingestkit.Prelude.{none, [], codes, pos}
use ingestkit.Api.Middleware.{HandlerEnding, returned, panicked, Incoming, reached, panics}

abbrev recovered : HandlerEnding → HandlerEnding
recovered (panicked e) = returned e
recovered ending = ending

abbrev failing_request : Incoming
failing_request = reached (codes "/v1/events") [] 12 (pos 3) (panics none)
