-- ===== src/Lib.antt =====
-- CIRE-RAG is a retrieval service: an API that searches the documents of a tenant, and a worker
-- that ingests documents from a job queue. The API authenticates the caller (app/api/v1/auth.py),
-- binds the tenant of the request (app/api/middleware/business_context.py,
-- app/api/v1/tenant_guard.py), checks the filters and builds a scope
-- (app/domain/retrieval/validation.py, app/domain/retrieval/scoping.py), runs a plan of
-- sub-queries (app/workflows/retrieval/plan_executor.py), stamps and checks the rows
-- (app/api/middleware/security.py) and merges them (app/domain/retrieval/fusion.py). The worker's
-- pollers (app/infrastructure/queue/base_worker.py) claim jobs, whose handler
-- (app/workflows/ingestion/job_dispatcher.py) takes a slot of the tenant
-- (app/infrastructure/background_jobs/tenant_concurrency_manager.py) and runs the pipeline
-- (app/workflows/ingestion/processor.py).
--
-- Base holds what the modules share: tests, lists over the native numbers, texts (`strip`, `in`,
-- `sorted`, `dict.fromkeys`) and `Value`, the values of JSON with Python's `bool`, `or`, `get`,
-- `pop` and `update`. The case conversion of texts and the printing of numbers are the fields of
-- the record `Python`, an instance argument.
--
-- Concurrency: `TenantConcurrencyManager`. Its methods run without a wait, so each is a function
-- of the state; Concurrency.Slot is `tenant_slot`, as a step relation between whole workers, in
-- which any task may move next and any wait or body may end in an exception.
-- Api.Auth, Api.Tenant, Api.LeakCanary, Api.Idempotency: `require_service_auth`, the middleware
-- and the guards, `verify_isolation` with `stamp_tenant_context`, and the idempotency store in
-- memory (app/infrastructure/caching/idempotency.py).
-- Retrieval.Filters, Retrieval.Scoping, Retrieval.Policies and Retrieval.Plan: the validation of
-- filters, the scopes of a request with their penalties (Retrieval.Scoping.Penalty) and the
-- context of a sub-query (Retrieval.Scoping.SubQuery), the score filter, the search hints and
-- the noise reduction (app/domain/retrieval/policies.py), and the plan executor.
-- Retrieval.Planning: `coerce_query_plan` (app/domain/retrieval/planning.py). Retrieval.Resolve:
-- `resolve_retrieval_filters` (app/domain/retrieval/context_resolution.py).
-- Retrieval.Item and Retrieval.Fusion: the items and app/domain/retrieval/fusion.py, with
-- `rrf_merge` (Rrf), `stratify_results` (Stratify), `to_retrieval_items` (Items), the missing
-- scopes and clauses (Missing) and the policy on items (Policy).
-- Retrieval.Contract: `run_hybrid` and `run_comprehensive`
-- (app/workflows/retrieval/contract_manager.py) with the late fusion executor, over an engine
-- that is an argument; Retrieval.Contract.MultiQuery is the executor of several queries
-- (app/workflows/retrieval/executors/). They call the filters, the scopes, the leak check and
-- the fusion.
-- Retrieval.Broker: `RetrievalBroker` (app/workflows/retrieval/retrieval_broker.py), which
-- resolves the filters, runs the engine with its fallbacks and reranks
-- (Retrieval.Broker.Rerank), with the summaries and the graph nodes (Retrieval.Broker.Layers);
-- the engine and the rerankers are arguments. Retrieval.Grounded: `GroundedRetrievalWorkflow`
-- (app/workflows/retrieval/grounded_retrieval.py) with the scope policy of
-- app/domain/retrieval/strategies/agnostic_scope_strategy.py.
-- Ingestion.Policy, Ingestion.Processor, Ingestion.Batch and Ingestion.Backpressure:
-- app/domain/ingestion/orchestration/policies.py with the statuses, `DocumentProcessor.process` as
-- a run with a trace of effects, by how each call of a service ends: it returns, raises or is
-- cancelled, and `except Exception` catches the second only,
-- app/infrastructure/state_management/batch_manager.py with the resolver that reads its documents,
-- and app/infrastructure/observability/ingestion/backpressure.py.
-- Ingestion.Chunking: the splitters of app/domain/ingestion/chunking/splitter_strategies.py.
-- Worker.Queue, Worker.Transport, Worker.Lookup, Worker.Dispatch and Worker.Poller: the job table
-- and what app/infrastructure/background_jobs/job_store.py does to it, its retried calls, the
-- lookup of a source document (app/workflows/ingestion/job_processor.py), the handlers, and the
-- poll loop.
--
-- Bounds. The retried calls recurse on the retries that are left, which the settings give, and
-- the rounds of `stratify_results` on the length of the longest bucket, so that no fuel is
-- needed; a long paragraph is cut up on its own length, which is enough when a part has at least
-- one character. The poll loop, which does not end by itself, is run over the rounds to come.
-- The steps of the slots are a relation, which needs none, either. The integers of the program
-- are Python's, without a bound.
--
-- Not modelled: the calls of the database, the storage, the language models and the parsers,
-- whose answers are arguments; float arithmetic, where scores and estimates are arguments or
-- only compared, and a rounded operation is a field of the record `Rounded`; the search of
-- regular expressions, where what a pattern finds is an argument; logging, traces and metrics.
-- Of the calendar, only the comparison of instants is modelled, and parsing a date is an
-- argument.
pub mod Base
pub mod Concurrency
pub mod Api
pub mod Retrieval
pub mod Ingestion
pub mod Worker
