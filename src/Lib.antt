-- ===== src/Lib.antt =====
-- WhatsApp planner: what the program does between a batch of messages and an approved document.
--
-- A contractor's clients send messages over WhatsApp. They are collected into one batch for each
-- client (aggregation), made into one transcript (media), classified by a language model (nlp),
-- shown to the owner for confirmation, turned into a document by a language model (documents), and
-- shown to the owner again for approval (hitl). The orchestrator moves each request along a state
-- machine (workflow) and keeps it in a repository (persistence).
--
-- The files, by the sources that they model (below src/wapp_planner):
--   * Workflow: workflow/enums.py, state_machine.py (`next_state`, `TRANSITIONS` as `transitions`)
--     and triggers.py; Workflow/Runs and Workflow/Reaches speak of whole lives of a request.
--   * Domain: domain/enums.py and models.py.
--   * Aggregation: aggregation/aggregator.py. The attributes of `Aggregator` are the record
--     `Aggregator`; each method is an action on it. The id factory is a parameter.
--   * Util/JsonIo: util/jsonio.py. Nlp: nlp/prompts.py and classifier.py.
--   * Documents: documents/content.py, branding.py, generator.py, layout.py and renderer.py, up to
--     the calls of reportlab and python-docx, which are the data `Flowable` and `DocxCall`.
--   * Media: media/processor.py, and media/adapters.py in Media/Adapters.
--   * Hitl: hitl/tokens.py, dispatcher.py, messages.py and service.py.
--   * Ingestion: ingestion/signature.py, idempotency.py, client_registry.py, media_downloader.py,
--     parser.py and service.py. `IngestionService` is what a service never assigns again, and
--     `IngestionState` what it does, with the orchestrator's repository and the outside;
--     Ingestion/Service/Soundness, Lifetime, Triage, Holding, Retention and Acceptance speak of its state
--     between two calls;
--     Ingestion/Parser/Webhook is a webhook body as its sender writes it, Ingestion/Parser/Clock
--     compares two runs of the parser at different times.
--   * Config/Settings: config/settings.py, from the values that pydantic has read.
--   * Api: api/app.py, a handler as a function to its answer.
--   * Bootstrap: bootstrap.py, `build_app` with its default repository and store, and `FlushWorker`,
--     whose endless loop is `run_rounds` for any finite list of rounds. Bootstrap/Clients is
--     `default_adapters` and `main` of __main__.py, over the third-party clients as parameters.
--     Bootstrap/Runs is the life of the program as a step relation: a webhook, a click, a round of the
--     worker, or a change outside; Bootstrap/History, Custody and Completion speak of its runs,
--     Bootstrap/Reach of the messages to the owner.
--   * Persistence/Repository: persistence/repository.py, the repository in memory.
--   * Providers: the data and the abstract services of providers/base.py; its children are the fakes
--     (providers/fakes.py and those of media/extractors.py) and the adapters whatsapp.py,
--     email_notifier.py, openai_provider.py and s3_storage.py, over the clients as parameters.
--   * Json: the values that `json.loads` returns, and what the program reads of them.
--   * Orchestrator: orchestrator/orchestrator.py. Orchestrator/Stages is the interface of the
--     services that it calls, Orchestrator/Wiring fills it with the models of the services,
--     Orchestrator/Base is its state and helpers, Orchestrator/Defs its methods, and the other files
--     their properties.
--   * Errors: the exceptions, and calls on a state that may raise. What was written before an
--     exception stays written, as in Python.
--
-- External services, the digest, base64, JSON, the validation by pydantic and the formats of floats
-- are parameters: records of functions, whose laws stand in records beside them (`IsLawful` for the
-- tokens). `W` is the state of everything outside the program. Times are microseconds, so that
-- `a - b < d` is written `a < b + d`; a float is a number of units of 2^-1074, of which every finite
-- float is a multiple. Texts that the program walks are lists of code points. There is no fuel in
-- the model of a loop: the retries of the generator count down from `max_attempts`, which the source
-- gives to `range`, and all other loops go through a list. `decimal`, which prints a number, takes
-- the successor of the number as fuel, and a number has at most that many digits.
--
-- A webhook reaches `Api.inbound`, which hands it to the service; the service fills the buckets of
-- the aggregator and gives closed ones to the orchestrator, whose links come back to
-- `Api.hitl_action`. `Bootstrap.tick` closes the buckets whose time is over.
--
-- In a run, the program's calls come in any order, and each is over before the next one begins.
--
-- Not modelled: the thread of the flush worker and the server that `main` starts, the clock, the
-- routing of FastAPI and its answer to exceptions that no handler catches, what other threads do
-- while a handler runs, the installation of dependencies (scripts/bootstrap_env.py), and what the
-- real clients of HTTP, SMTP, OpenAI, S3 and ffmpeg do.
pub mod Prelude
pub mod Workflow
pub mod Domain
pub mod Errors
pub mod Json
pub mod Aggregation
pub mod Util
pub mod Providers
pub mod Nlp
pub mod Documents
pub mod Persistence
pub mod Ingestion
pub mod Config
pub mod Hitl
pub mod Media
pub mod Orchestrator
pub mod Api
pub mod Bootstrap
