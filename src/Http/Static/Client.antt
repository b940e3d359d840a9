-- ===== src/Http/Static/Client.antt =====
-- netix_backend/http/static.py: the client that the helpers build, and the calls made through it.
use netix_backend.Prelude.{
  ℕ, ◌⊎◌, inl, inr, Bool, true, false, List, [], ◌∷◌, ◌++◌, Option, none, some, String, Result, ok,
  err, ◌>>=◌,
}
use netix_backend.Prelude.Int.{ℤ, pos, ◌+ℤ◌, pos_part}
use netix_backend.Prelude.Floats.{Floats}
use netix_backend.Prelude.Dict.{Dict}
use netix_backend.Env.{
  Environ, ConfigurationError, env_bool, flag, env_float, env_str, service_authorization,
  or_default,
}
use netix_backend.Discovery.{Snapshot, service_url}
use netix_backend.Http.Retry.{Policy, Bound, given, default_retries, default_backoff, init_policy}
use netix_backend.Http.Retry.Request.{max_retry_after_seconds}
use netix_backend.Http.Static.{
  Field, Response, Attempt, What, upload, download, Failure, configuration_error, Round, Event,
  closed, loop, upload_round, fetch_round,
}

module _ (f : Floats) where
  open f use {F, tenths, parse_float}

  -- `_attempts`
  unfoldable pub attempts : Environ → Bound F → Option ℤ → Result ConfigurationError ℤ
  attempts env bound retries = given retries (default_retries f env bound) >>= λ n. ok (n +ℤ pos 1)

  -- The client that `build_static_client` sets up; T is the type of an injected transport.
  pub record Client (T : Type 0) : Type 0 where
    pub base_url : String
    pub authorization : String
    pub timeout : F
    -- the transport's policy, and whether it verifies certificates; or the injected one
    pub transport : T ⊎ (Policy F × Bool)

  abbrev static_url : Environ → Option String → Result ConfigurationError String
  static_url env (some url) = ok url
  static_url env none = env_str env "STATIC_SVC_URL" none true >>= λ url. ok (or_default "" url)

  module _ {T : Type 0} (env : Environ) (bound : Bound F) (registry : Snapshot) where
    abbrev static_transport : Option T → Result ConfigurationError (T ⊎ (Policy F × Bool))
    static_transport (some transport) = ok (inl transport)
    static_transport none =
        init_policy f env bound (some (pos 0)) none false (max_retry_after_seconds f) >>= λ policy.
        ok (inr (policy, env_bool env "STATIC_SVC_VERIFY_SSL" (flag false)))

    unfoldable pub build_static_client : Option F → Option T → Result ConfigurationError (Client T)
    build_static_client timeout transport = do
      seconds ← given timeout (env_float parse_float env "STATIC_SVC_TIMEOUT" (tenths 300))
      transport ← static_transport transport
      base_url ← static_url env (service_url env registry "static-service" none)
      authorization ← service_authorization env ("STATIC_SVC_AUTH" ∷ []) "USER_SVC_AUTH"
      ok (record {
        base_url = base_url;
        authorization = authorization;
        timeout = seconds;
        transport = transport;
      })

    -- `send c n` is what attempt `n` gives, through a client built here or (`none`) the caller's own.
    module _ (draws : ℕ → F → F) (send : Option (Client T) → ℕ → Attempt) where
      abbrev pub raised : {R : Type 0} → ConfigurationError → List (Event F) × Result Failure R
      raised e = ([], err (configuration_error e))

      abbrev pub closing :
          {R : Type 0} → List (Event F) × Result Failure R → List (Event F) × Result Failure R
      closing (trace, result) = (trace ++ closed ∷ [], result)

      -- A setting is read before the rest, which it may keep from running.
      abbrev pub or_raised :
          {R A : Type 0}
          → Result ConfigurationError A
          → (A → List (Event F) × Result Failure R)
          → List (Event F) × Result Failure R
      or_raised (ok a) body = body a
      or_raised (err e) body = raised e

      -- `_client_context`: the caller's client is left open.
      abbrev pub in_client :
          {R : Type 0}
          → Bool
          → Option F
          → Option T
          → (Option (Client T) → List (Event F) × Result Failure R)
          → List (Event F) × Result Failure R
      in_client true timeout transport body = body none
      in_client false timeout transport body =
          or_raised (build_static_client timeout transport) λ created. closing (body (some created))

      -- What `static_upload` and `_fetch` share.
      unfoldable pub static_call :
          {R : Type 0}
          → What
          → (ℕ → ℕ → Response → Round R)
          → (own_client : Bool) → Option F
          → Option ℤ
          → Option T
          → List (Event F) × Result Failure R
      static_call what round own_client timeout retries transport =
          or_raised (attempts env bound retries) λ count.
            or_raised (default_backoff f env bound) λ backoff.
              in_client own_client timeout transport λ c.
                loop f what round backoff draws (send c) (pos_part count) (pos_part count) 0 none

      unfoldable pub static_upload :
          Bool → Option F → Option ℤ → Option T → List (Event F) × Result Failure (Dict Field)
      static_upload = static_call upload upload_round

      unfoldable pub fetch :
          String → Bool → Option F → Option ℤ → Option T → List (Event F) × Result Failure Response
      fetch link = static_call download (fetch_round link)

      abbrev content_of : Result Failure Response → Result Failure (List ℕ)
      content_of result = result >>= λ response. ok response.content

      abbrev text_of : Result Failure Response → Result Failure String
      text_of result = result >>= λ response. ok response.text

      unfoldable pub static_fetch :
          String → Bool → Option F → Option ℤ → Option T → List (Event F) × Result Failure (List ℕ)
      static_fetch link own_client timeout retries transport =
          let (trace, result) = fetch link own_client timeout retries transport in
          (trace, content_of result)

      unfoldable pub static_fetch_text :
          String → Bool → Option F → Option ℤ → Option T → List (Event F) × Result Failure String
      static_fetch_text link own_client timeout retries transport =
          let (trace, result) = fetch link own_client timeout retries transport in
          (trace, text_of result)
