-- ===== src/Lib.antt =====
-- starion-sync: services that keep copies of spreadsheets in a database. A data source (a sheet of
-- Microsoft Excel or Google Sheets) belongs to a provider (the spreadsheet) and has at most one
-- connection, whose syncflows are run when their triggers fire. The parts, and how they interact:
--
--   apps/configurator      creates, changes and deletes sources, providers and connections
--   apps/triggers, apps/webhook
--                          emit WORKFLOW_TRIGGERED when a cron job or a webhook of Google
--                          fires, and call the webhooks that have subscribed to an event
--   apps/controller        on WORKFLOW_TRIGGERED, checks and schedules; emits SYNCFLOW_SCHEDULED
--   apps/worker            on SYNCFLOW_SCHEDULED, runs the sync with the processors; emits
--                          SYNCFLOW_SUCCEED, SYNCFLOW_FAILED and DATA_SOURCE_ERROR
--   apps/post-processor    on those, cleans up, counts rows, and stops broken connections
--   form-sync/main         writes what a form submits back to the spreadsheet it came from
--   libs/core, libs/modules
--                          the entities, the registries, the events, and the repositories over
--                          MongoDB through which all the services share their state
--
-- The modules:
--
--   Base            library names passed on, tests, queries on lists (Lists), integers (Int), and
--                   asynchronous methods as functions from a state to an outcome and a state
--                   (Effects): what was written stays written after a throw. Effects.Keeps has
--                   the rules by which a method's parts show what the method keeps
--   Driver          mongoose and MongoDB as a record of operations with their documented laws:
--                   collections of documents, queries, updates, and transactions that commit or
--                   abort. Driver.Memory meets the laws with lists; Driver.Laws has what follows
--   Entities        libs/core/src/entities, with the enumerations (Names) and the registries
--   Repository      libs/modules/src/repository/mongodb, a child per repository: getById is
--                   get_by_id, updateState is update_state, and so on; their children have what
--                   the operations keep and change, and Reachable has every sequence of them
--   Events          libs/core/src/events, and the world of a service: database and emitted events
--   Controller      apps/controller: handleWorkflowTriggered and what it calls
--   Worker          apps/worker: the wrappers, the activities (Activities) and the workflows of
--                   Excel (Excel) and Google Sheets (GoogleSheets)
--   Configurator    apps/configurator: the services (Connections, Sources), the workflows
--   PostProcessor   apps/post-processor: the handlers of success, failure and deletion
--   CronTrigger     apps/triggers/cron: the trigger service and the processor of its queue
--   WebhookTrigger  apps/triggers/webhook: the trigger service, the service of Google's webhooks
--                   (GoogleSheets), the handlers of the broker's and Google's messages
--   Webhook         apps/webhook: addWebhookExecution and executeWebhook; Payloads has what is
--                   said of an event, Subscribers what it adds to the queue, Queue the queue
--   FormSync        form-sync/main: the names of fields and columns (Columns), the headers of a
--                   sheet (Headers), the metadata (Metadata), the values of a row (Rows); the
--                   service of Excel, with its operations (Excel) and its runs (Excel.Service), and
--                   that of Google Sheets likewise (GoogleSheets), with its requests
--                   (Spreadsheets); the service that accepts form syncs and the processors of its
--                   queues (Service); the data sources (DataSources); and how a run ends (Runs)
--   Scenario        one data source with its documents; the Tests modules run on it
--
-- How it is modelled. A repository's method is an action on the database, and a service's method
-- an action on the world. `try` is `catch`, `Promise.all` takes its calls in order (those of the
-- deletion of a connection run on after one is rejected), and `session.withTransaction` is the driver's. An activity's outcome is that of its last attempt:
-- the retries of the orchestrator are not modelled. Ids are numbers, dates are milliseconds, the
-- texts of messages are left out. What the code relies on outside the repository is an argument:
-- the driver, the processors and the clock (Worker.Services), Microsoft's answers
-- (Controller.Microsoft), the storage (PostProcessor.Storage), random numbers and discoverers
-- (Configurator), the answers of Google (WebhookTrigger), Bull's queue and the answers of the
-- webhooks' addresses (Webhook),
-- and of form-sync Microsoft's workbook, the hash and the rebuilding of the metadata
-- (FormSync.Graph) and Google's spreadsheets (FormSync.Google). Queues are lists of their calls.
--
-- Most loops are over a list. Two need fuel. That of `convertToExcelColumnName` has the fuel of its
-- argument, with the proof that it is enough. That over the postfixes of a repeated header can run
-- for ever: it has the fuel of FormSync.Graph, any number, and `still_running` marks a method whose
-- loop is not over by then. That is no error: no handler gets it, and the results read no end in it.
--
-- The operations of idempotency.repository.ts have a collection of their own here, where the source
-- stores them in that of the data providers. Neither kind has the keys that the other is queried by,
-- but for the id: a query of one kind by an id of the other is not modelled.
--
-- Not modelled: harmonies, a limiter of rates that stands beside the sync; the clients
-- of Google and Microsoft and the Go processors, which are arguments; the workflow of the
-- controller that no message starts; the signature of a webhook's request; module wiring,
-- validation, configuration, and the copies of common/utils.ts that each service has.
pub mod Base
pub mod Driver
pub mod Entities
pub mod Repository
pub mod Events
pub mod Controller
pub mod Worker
pub mod Configurator
pub mod PostProcessor
pub mod CronTrigger
pub mod WebhookTrigger
pub mod Webhook
pub mod FormSync
pub mod Scenario
