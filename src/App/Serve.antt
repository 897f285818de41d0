-- ===== src/App/Serve.antt =====
-- internal/serve/serve.go, and the HTTP servers of gateway/app/app.go and services/voyage/app/app.go. Serve and
-- ListenAndServe close their listener when they return.
use maritime_test_lab.Prelude.{Bool, none, some, [], ◌∷◌, if◌then◌else◌}
use maritime_test_lab.App.{
  opened, closed, started, registered, status_serving, graceful_stop, listener, http_listener,
  application, health, reflection, grpc_server, shutdown_watcher, listen, serve, Run, fail, after,
}

-- which of the two ends of a gRPC server comes first: the context's, or that of `Serve`
pub data End : Type 0 where
  cancelled serve_failed serve_returned : End

pub record Env : Type 0 where
  pub listen_fails : Bool
  pub end : End

-- the `select`
abbrev pub ended : End → Run
ended cancelled = (graceful_stop ∷ closed listener ∷ [], none)
ended serve_failed = (closed listener ∷ [], some serve)
ended serve_returned = (closed listener ∷ [], none)

-- `GRPC`, with a `register` that registers the program's service
unfoldable pub grpc : Env → Run
grpc env =
    if env.listen_fails
    then fail listen
    else after
        (opened listener
          ∷ registered application
          ∷ status_serving
          ∷ registered health
          ∷ registered reflection
          ∷ started grpc_server
          ∷ [])
        (ended env.end)

-- how `ListenAndServe` returns: the address is taken, the server breaks, or it was shut down
pub data HttpEnd : Type 0 where
  http_listen_failed http_failed server_closed : HttpEnd

-- `ListenAndServe`, and the test of its error for `http.ErrServerClosed`
abbrev pub listen_and_serve : HttpEnd → Run
listen_and_serve http_listen_failed = fail listen
listen_and_serve http_failed = (opened http_listener ∷ closed http_listener ∷ [], some serve)
listen_and_serve server_closed = (opened http_listener ∷ closed http_listener ∷ [], none)

-- the server with the goroutine that shuts it down once the context is cancelled
unfoldable pub http : HttpEnd → Run
http end = after (started shutdown_watcher ∷ []) (listen_and_serve end)
