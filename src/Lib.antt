-- ===== src/Lib.antt =====
-- OnlineJudge: the submission pipeline, from the business server to the judge and back, and the way of a
-- request to the business server: the gateway, the dispatch to the executor, accounts and sessions.
--
-- A submission becomes a row of `submissions` and a row of the outbox in one transaction; the outbox
-- publisher hands the row to the message broker; a judge takes the message under a lease in Redis, runs
-- the program on its test cases, stores the result in Redis and reports it; the business server applies
-- the result. The business server runs its requests on a bounded executor and takes its database
-- connections from a pool.
--
--   Base       numbers, lists, bytes, hexadecimal digits: the names that the others share.
--   Proto      src/comm/proto: the messages of the pipeline, as records and enumerations.
--   Comm       src/comm/comm.hpp: `Trim`, `url_encode` and other string utilities.
--   Executor   src/oj_server/include/runtime/business_executor.hpp and
--              src/oj_server/src/runtime/business_executor.cpp: `submit`, `start` with `spawn` and
--              `spawn_fails`, `stop` with `joined`, and `worker_step` for `WorkerLoop`.
--   OdbPool    src/comm/odb/connection_pool.hpp: `init`, `advance` for `GetDatabase` and
--              `ReturnDatabase`, `shutdown`, `health_check_round`; Transaction: `ScopedTransaction`.
--   Outbox     src/oj_server/include/model/model_submission.hpp and src/comm/models: the tables and the
--              creation of rows; Claims: `ClaimPendingOutbox` and `UpdateOutbox`; Receipts:
--              `ApplyJudgeResult`; Publisher: src/oj_server/src/judge/outbox_publisher.cpp.
--   Inbox      src/judge_service/include/judge_inbox.hpp: the two Redis scripts; Calls: `Claim` and
--              `Complete`.
--   Delivery   src/judge_service/include/judge_delivery_policy.hpp, report_decision.hpp and
--              result_reporter.hpp; Consumer: mq_consumer.hpp, `HandleMessage` to `FinishDelivery`.
--   EventLoop  src/judge_service/include/event_loop.hpp: `PushNewTask`, `SubmitIo`, `CompleteIo`, `IoWork`,
--              `OwnerWork` and `Stop`.
--   Gateway    src/gateway: RateLimiter, Router and Jwt (jwt_middleware.cpp), named for their classes;
--              Service: main.cpp, `default_method` with `ForwardToBackend`.
--   Dispatch   src/oj_server/include/rpc/async_dispatch.hpp: `AsyncDispatch` and the completion that the
--              caller and the task share.
--   AdminAudit src/oj_server/src/rpc/admin_audit_worker.cpp: the queue of audit records and its thread.
--   Redis      the commands that the business server sends, and a connection that may fail at each.
--   Auth       src/oj_server/include/control/control_auth.hpp: Codes: the verification codes, in
--              Codes.Steps one command at a time; Passwords:
--              hashes; Login: the log-in and its limits; Requests: what a code authorizes.
--   Session    src/oj_server/include/oj_session.hpp: `CreateSession`, `GetSession`, `DestroySession`;
--              Cookie: `ParseCookie`.
--   Judger     src/judge_service/include/judger.hpp: Output: `NormalizeOutput`; Run: the coroutine
--              `Judger::Run`, over an environment of containers.
--
-- The modules named for what they prove stand below the module that they are about; the modules named
-- Examples run the code on small inputs.
--
-- Concurrency: where threads share a state, a lock scope is one atomic step, and a history is any
-- sequence of steps, so that a statement about every history holds for every interleaving. Steps of a
-- thread that is not where the step starts change nothing.
--
-- Numbers: counters of a fixed width wrap as written (`% 2 ^ w`); times are numbers given to each step,
-- without any assumption that they grow; a difference of two readings of a clock stops at 0, where
-- the comparisons of the code answer the same. Functions are structural recursions on lists, but for
-- two on fuel: `SplitString`, whose rounds are bounded by the length of the string, and `std::to_string`,
-- which writes at most twenty digits of a 64-bit number.
--
-- What the program calls and does not contain is a parameter: Redis is a key with its expiry and a
-- script that runs atomically, and for accounts and sessions the documented effect of each command;
-- MySQL is a map from keys to rows, a rounding of its DATETIME columns, and a choice of the rows that a
-- query locks; a transaction takes effect at one moment or not at all, and a call may fail to learn
-- that it did; the row that `UpdateOutbox` reads without a lock may be older than the table it writes;
-- the containers, the event loop's answers, protobuf, SHA-256, the verification of tokens, the
-- backends of the gateway and the random generator are functions.
--
-- Not modelled: the logs and latency timers; the host's temporary files of the judge; the cache of
-- custom tasks; the administration and content parts of the business server, its adapters of RPC, the
-- caches, the queries of the models and the mail; the broker client and the Docker client. Judger takes
-- what a `co_await` returns as given. Codes.Limits and Requests take the verifications of codes
-- one after the other; Codes.Steps interleaves their commands. The reads and writes of two calls of
-- `ApplyJudgeResult` for one submission are not interleaved.
pub mod AdminAudit
pub mod Auth
pub mod Base
pub mod Comm
pub mod Delivery
pub mod Dispatch
pub mod EventLoop
pub mod Executor
pub mod Gateway
pub mod Inbox
pub mod Judger
pub mod OdbPool
pub mod Outbox
pub mod Proto
pub mod Redis
pub mod Session
