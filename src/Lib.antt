-- ===== src/Lib.antt =====
-- Parts of SiloCore's backend. Its job system (backend/src/modules/job): background jobs are
-- rows of the table `jobs`, created by `JobService.enqueueJob`, handed to the queue of pg-boss,
-- run by workers that report through the service's other methods, and repaired by two periodic
-- scans; their changes are notified to subscribers and streamed to browsers. Its workspaces
-- (backend/src/modules/workspace), which their owners create, rename and delete; jobs and chat
-- sessions belong to one. Its LLM providers (backend/src/modules/llm): their configurations, of
-- which one is the default, and the classification of their failures, which decides whether another
-- provider may take over. And its chat (backend/src/modules/chat): sessions, messages and the
-- generation of replies, at once or as a stream, with the fallback from provider to provider.
--
-- How it is put together:
--   * job.service.ts calls job.repository.ts for the rows, jobLifecycle.ts and jobPrivacy.ts for its
--     guards, jobMetric.service.ts for a metric when a job ends, job.notifications.ts for `pg_notify`
--     and a transport for the queue. job.events.ts reads jobs when notified or by a timer.
--   * chat.service.ts checks the workspace's policy, stores through chat.repository.ts, and asks
--     the LLM runtime for a provider and, when llm.failure.ts lets it, for the next one.
--   * The Prisma client, the clock and the queue are outside the repository: for jobs they are the
--     parameter `Platform` (Job/Platform.antt), whose laws `IsPlatform` state what Prisma documents
--     of the queries used. Job/Platform/Memory.antt is a platform on a list of rows,
--     Job/Platform/Memory/Laws.antt its laws. Workspaces, providers and chat sessions each
--     have a platform of their own, with an instance among their tests.
--   * A method is an `Exec (World Db) A` (Exec.antt): it takes the world, which is the database, the
--     number of clock readings so far, the notifications and the messages sent, to a result or an
--     exception (Errors.antt) and the world that it leaves. `new Date()` reads the next time. A chat
--     method has a world of its own, the state of what it calls and the calls that it made.
--   * An update input of Prisma is the change of a row that it makes (`to_running`, `to_failed`, ...).
--
-- Which file models which code (paths under backend/src/modules):
--   * Job.antt: JobSelectFields of job/job.model.ts with JobStatus of prisma/schema.prisma.
--   * Job/Lifecycle.antt: job/jobLifecycle.ts. Job/Lifecycle/Graph.antt has the status graph as a
--     relation.
--   * Job/Privacy.antt: job/jobPrivacy.ts, with the regular expressions as patterns of letters and
--     `[-_]?`. Json.antt has the values.
--   * Job/Repository.antt: job/job.repository.ts.
--   * Job/Service.antt: the helpers of job/job.service.ts and jobMetric/jobMetric.service.ts.
--     Its methods are in Job/Service/Queueing.antt (enqueueJob), Job/Service/Attempts.antt
--     (markRunning, startWorkerAttempt, updateProgress, markRetryPending, heartbeat),
--     Job/Service/Endings.antt (cancellation, markSucceeded, markFailed) and
--     Job/Service/Repairs.antt (the scans).
--   * Job/Worker.antt and Job/Worker/Run.antt: job/job.worker.ts, with the handler of a job as a
--     parameter. Job/Worker/Validation.antt: the handler of worker/validationJob.ts. Exec/Ends.antt and Job/Service/Outcomes.antt: what a call guarantees of its end.
--   * Job/Commands.antt: sequences of calls of the service.
--   * Job/History.antt: the specification, which changes may happen to a row, each with what must
--     hold before it and the fields that it sets. Job/History/Laws.antt and Job/History/Identity.antt:
--     what follows from it for a row.
--   * Job/Service/Rows.antt and Job/Service/Lives: how each operation acts on a row.
--   * Job/Notifications.antt and Job/Notifications/Subscriptions.antt: job/job.notifications.ts.
--     Job/Notifications/Subscriptions/Laws.antt is about its sequences of subscriptions.
--   * Job/Events.antt and Job/Events/Feeds.antt: job/job.events.ts, one open feed as a machine that
--     reacts to what happens to it, in any order. Job/Events/Laws.antt and Job/Events/Hints.antt
--     are about its runs.
--   * Workspace.antt, Workspace/Policy.antt, Workspace/Repository.antt and Workspace/Service.antt:
--     workspace/workspaceAuthorization.types.ts, coreSingleOwnerWorkspaceAuthorization.policy.ts,
--     workspace.repository.ts and workspace.service.ts. `trim` on strings is a parameter.
--   * Llm/Failure.antt and Llm/Failure/Classification.antt: llm/llm.failure.ts.
--     Llm/SafeError.antt: llm/llm.safeError.ts.
--   * Llm/Providers.antt and Llm/Providers/Repository.antt: llm/llmProviderConfig.repository.ts.
--     Llm/Providers/Commands.antt: sequences of its calls. Llm/Providers/Defaults: the default.
--   * Chat.antt and Chat/Calls.antt: the types of the chat and what its service calls.
--     Chat/Generation.antt: the helpers of chat/chat.service.ts. Chat/Completion.antt:
--     generateAssistantResponse, with its accounts in Chat/Completion. Chat/Streaming.antt and
--     Chat/Streaming/Loop.antt: streamAssistantResponse, with what a reader sees of it in
--     Chat/Streaming/View.antt.
--   * Chat/Sessions.antt: chat/chat.repository.ts and the service's methods on sessions and
--     messages.
--   * The modules named Tests: runs on platforms in memory.
--
-- Bounds: times and ids are natural numbers without a bound; `progress` is any JavaScript number, an
-- integer or not. The two loops that generate replies run on fuel, one more than the listed
-- fallback providers, and their termination theorems show that it is never used up; every other
-- loop is over a list. The latency that a usage records is at least 0, as the code takes it.
--
-- Not modelled: messages of exceptions (their class and code are, for the most part), logging,
-- failing connections, a queue that gives one message id twice, the times of the rows of workspaces
-- and chats, and the interleaving of two calls at their `await`s: a call is one step here, but a
-- feed's tasks and their replies are steps of their own. Of llm.failure.ts the messages and
-- `confirmedDeadline` are left out. So are the HTTP layer, the other tasks that the workers run, the
-- making of titles, the provisioning of workspaces, the users, the LLM runtime and the clients of
-- LLM providers, and the frontend: they call the parts above or libraries.
pub mod Base
pub mod Errors
pub mod Exec
pub mod Json
pub mod Chat
pub mod Job
pub mod Workspace
pub mod Llm
