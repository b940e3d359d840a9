-- ===== src/Lib.antt =====
-- netix_backend: the backend library that the platform's services share.
--
-- The program's parts and how they meet. A service reads its settings through the environment
-- readers, also before Django is configured. Its ASGI application stands behind the lifespan
-- handshake, the request timeout and the registration with update-service, whose registry the
-- discovery module asks for the peers' addresses. Its viewsets scope reads and pin writes to the
-- caller's organization, a mixin above them lets a superuser reach another one, and its models keep
-- a trail of changes on the row. It calls its peers through the retrying clients, and its errors
-- pass the event filters.
--
-- The files, and the code that they model:
--   Env          netix_backend/env.py: every reader, over an environment that is a function from
--                names to texts. Env/Lookup, Booleans, Credentials and Numbers hold the lemmas.
--   Cloning      netix_backend/cloning.py: the machine keys of an organization; the regular
--                expression is the matcher match_org.
--   Http/Retry   netix_backend/http/retry.py: _RetryPolicy with its two loops, Retry-After, the
--                defaults and requests_session_with_retry. Http/Retry/Loop is about the loop, Twins
--                about its async form, Delays about the waits. Http/Retry/Deadline is
--                _request_within_deadline, Http/Retry/Request the one-shot helpers above both.
--   Http/Static  netix_backend/http/static.py: the loop of uploads and downloads, and in
--                Http/Static/Client the client and the calls through it.
--   Http/Clients netix_backend/http/clients.py: headers and names, and in Http/Clients/Build the
--                construction and the cache. Http/Clients/Refinement states the cache by the history
--                of its calls.
--   Http/Health  netix_backend/http/health.py: the probe that is answered above Django.
--   Asgi/Lifespan, Asgi/Timeout, Asgi/Registration
--                netix_backend/asgi/lifespan.py, timeout.py and registration.py. A request under the
--                clock is a Call that the events app_sends, app_ends and time_is_up step in any order;
--                Asgi/Registration/Heartbeat is the loop behind the first registration.
--   Asgi/Testing netix_backend/asgi/testing.py: the slow app and the driver of the contract suite,
--                over Asgi/Timeout, and in Asgi/Testing/Cycle the cycles of a server.
--   Discovery    netix_backend/discovery.py: the snapshot, its expiry and its refreshes.
--   Database     netix_backend/database.py: the aliases of DATABASES and their replicas.
--   Django/Views netix_backend/django/views.py: Identity (is_superuser, tenant_organization_id, the
--                object permission), Columns (_model_has_field), WriteScope (TenantWriteScopeMixin),
--                Reads (EnvoyScopedQuerysetMixin, IncludeDeletedMixin), SoftDelete (SoftDeleteMixin,
--                ListErrorMappingMixin), Lists (the create and update of lists, AtomicWriteMixin).
--   Django/ViewsAio
--                netix_backend/django/views_aio.py: the async hooks above the same write scope.
--   Django/Pagination
--                netix_backend/django/pagination.py: the limits of a page.
--   Django/OrgScope
--                netix_backend/django/org_scope.py: SuperuserOrgScopeMixin. What super() does is an
--                argument, which the theorems fill with the write scope below it.
--   Django/ChangeHistory
--                netix_backend/django/change_history.py: Actor (the context variable and what binds
--                it), Values (json_safe and Python's == on its results), Trail (ChangeHistoryModel), whose
--                rows tell the attributes that are deferred.
--   Django/Exceptions
--                netix_backend/django/exceptions.py: details and flatteners, in Messages the messages
--                of an exception, in Handler the envelope.
--   Django/Models, Django/Serializers, Django/OrgBootstrap, Django/DbTimeout, Django/Cache
--                netix_backend/django/models.py, serializers.py, org_bootstrap.py, db_timeout.py and
--                cache.py. A save of Django and its signal are interfaces with the laws that the code
--                relies on.
--   Django/TestSettings
--                netix_backend/django/test_settings.py and, for the defaults, testing.py: the
--                environment of a test run, which os.environ is a dictionary of.
--   Observability/SentryFilters
--                netix_backend/observability/sentry_filters.py: the texts of an event, the filters
--                and their chain.
--   Observability/OtelMiddleware
--                netix_backend/observability/otel_middleware.py: the span of an async request.
--   Text         the text methods that the code calls: strip, lower, upper, int() and str() of
--                integers.
--   Prelude      shared types and lemmas: integers over the native numbers, dictionaries that keep
--                the order of insertion, results of calls that may raise, floats by their operations.
--
-- Exceptions are the err of a Result, or constructors of an outcome where the code tells them apart.
-- The context variable, the latch, the snapshot and a row are records that each operation takes and
-- returns.
--
-- Fuel. The retry loop gets one round more than the policy's retries: the round of that number ends
-- the loop whatever the attempt gives. The walk along an exception's causes gets one round more than
-- there are exceptions, since no exception is visited twice. The loops over range(n) are recursions
-- on the rounds that are left.
--
-- Arguments stand for what the code calls and does not define: what a send or a PUT gives, the
-- random draws, the delays that the policy's sleep refuses, the parsing of HTTP dates, the clock,
-- urljoin, json.dumps, the floats' operations, the settings, _meta.get_field, the verdict of
-- envoy_pyauth, the str of lists and dictionaries, slugify, and the drivers of a clone. Django's own
-- save is the end of _state.adding, and its from_db the attributes that it leaves on the row.
--
-- Not modelled: the SQL behind a queryset, and transactions but for the rollback, which is an
-- interface; the wiring of Django, DRF, OpenTelemetry and Sentry, which configures those libraries;
-- OpenAPI schemas; Excel files; the tests of the contract suite and the pytest fixtures. The httpx
-- transports and clients are what an attempt gives and the record of their settings; the locks around
-- a cache are left out, since a call under one is one step. The sleeps under a deadline and of the
-- static service are taken to accept their delays, which are backoffs and no Retry-After: they do for
-- a backoff factor that is a number from 0 on. Python's texts are compared with ASCII ones after
-- lower() and upper(), which the model computes as far as that comparison sees.
mod Prelude
pub mod Text
pub mod Env
pub mod Cloning
pub mod Http
pub mod Django
pub mod Asgi
pub mod Discovery
pub mod Database
pub mod Observability
