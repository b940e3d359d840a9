-- ===== src/Asgi/Lifespan/Tests.antt =====
-- A server that starts, sends something else, and shuts down.
use netix_backend.Prelude.{◌≡◌, refl, [], ◌∷◌, ◌++◌, some}
use netix_backend.Asgi.Lifespan.{
  serve_lifespan, serve_lifespan-shutdown, startup, shutdown, startup_complete, shutdown_complete,
  replicate, startups,
}

serve_lifespan-shutdown_example :
    serve_lifespan ((startup ∷ "lifespan.other" ∷ []) ++ shutdown ∷ startup ∷ []) ≡ record {
      sent =
          replicate (startups (startup ∷ "lifespan.other" ∷ [])) startup_complete
          ++ shutdown_complete ∷ [];
      left = some (startup ∷ []);
    }
serve_lifespan-shutdown_example =
    serve_lifespan-shutdown (startup ∷ "lifespan.other" ∷ []) (startup ∷ []) refl
