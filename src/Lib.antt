-- ===== src/Lib.antt =====
-- Verification of the core services of nrcc, the control centre for a Node-RED server.
--
-- Base: lists, options, results, Boolean tests over the native numbers, association lists for Go's
-- maps with string keys, and texts as lists of code points (Base/Texts).
-- Store (internal/store/json_store.go): a JSON file behind a lock. `update` is `Update`: read, run
-- the callback, write; the argument `Write` says what the disk does with the write. Calls under
-- one lock are single steps, so an interleaving of calls is a list of them.
-- Auth (internal/service/auth.go, internal/model/user.go): the table of accounts, one function for
-- each method (`create_user` is `CreateUser`, and so on), and `run` over any list of calls.
-- Auth/Sessions: refresh sessions; the digest of a token is a parameter.
-- Mfa (internal/service/mfa.go, internal/model/mfa.go): enrollments, recovery codes and the tokens
-- between a login and its second factor; TOTP, bcrypt and the normalisation of a code are
-- parameters, random secrets are arguments.
-- RateLimit (internal/middleware/ratelimit.go): the lockout that guards credentials, with its file;
-- json.Marshal, json.Unmarshal and what the disk does with a write are parameters. Each region under
-- the lock is a step, so that a history of events is any interleaving of requests.
-- Throttle (internal/middleware/throttle.go): the counter of requests per client address.
-- Ring (internal/service/metrics_buffer.go, restart_tracker.go): the bounded histories.
-- Apply: the transaction that replaces settings.js. Apply/Paths, Files and Snapshot are the file
-- operations (internal/service/apply_atomic.go, apply_snapshot.go), Apply/Revision the source
-- revisions (source_revision.go), Apply/Pipeline `ApplyService.apply` (apply.go), Apply/Rollback
-- `ExecuteRollback` (apply_rollback.go), Apply/Runtime `applyRuntime` with the staging and the
-- precondition (apply_runtime.go, apply_coordinator.go, apply_revision.go), and Apply/Flight
-- `ApplyCoordinator.Apply` with its slots (apply_coordinator.go). Apply/Service is the interface
-- of the configuration service that the transaction calls.
-- Process (internal/service/process_linux.go, restart_count_store.go): the manager of the Node-RED
-- child. A state holds the manager, the goroutine of each child and the callers of Stop. Process/Exit
-- is the goroutine `waitForExit`; in Process/Traces `step` is one step of one of them and `run` any
-- interleaving, where a panic is `none`. Process/Steps lists the changes to the state, and
-- Process/Kept shows that what each of them keeps holds along a run.
-- Adapter (internal/service/apply_adapter.go): the selection of the adapter and its restart;
-- Adapter/Compatibility (nodered_compatibility.go) the policy by version, Adapter/Readiness
-- (apply_readiness.go) the probe, with its network as an oracle by the number of the attempt.
-- Backup (internal/service/backup.go): which backups are kept (Backup/Retention, over `List`'s
-- backups and the answers of the disk), the configuration and its schedules (Backup/Schedule), and
-- `atomicRemove` with a crash between its steps (Backup/Removal).
-- Patch (internal/service/config_patch.go, internal/model/config_patch.go): the merge of a partial
-- configuration, over raw JSON values that are objects or any other text.
-- Redaction (internal/service/apply_diff.go): the redacted settings and their diff, over code points.
-- Flows (internal/service/flow_version.go): the versions of flows.json as a map from names to
-- contents, captured, pruned and gone back to.
-- Env (internal/service/env_bulk_linux.go, env_linux.go): the write of a batch of environment
-- variables, on the environment part of the configuration that the store holds.
--
-- A world of the transaction holds the files as a map from paths to contents, the structured
-- store, the audit trail and a tick. What the operating system, the adapter and the context answer
-- comes from the record `Outside` at the current tick, so a theorem over every `Outside` covers
-- every pattern of failures. Apply.Pipeline.Atomic.Outcome states what a transaction leaves, for
-- all of its branches at once.
--
-- Bounds and fuel: the retries of a snapshot name are the source's own eight attempts; the loop of
-- a ring's `Recent` runs on the number of entries asked for, which bounds it; every other loop is
-- recursion on a list. Clock readings are natural numbers, counts are unbounded (Go's int is not
-- reached by a count of attempts or entries).
--
-- Not modelled: JWT, bcrypt, TOTP and JSON themselves; file modes and the temporary files of an
-- atomic write; the meta data of audit events; what another process does to
-- the files between two steps; HTTP handlers; the archives of
-- backups, restic and cron; the lock of flows.json and the diff of its versions; the other writes of environment variables, docker and
-- systemd, updates and the user interface.
pub mod Base
pub mod Store
pub mod Auth
pub mod Mfa
pub mod RateLimit
pub mod Throttle
pub mod Ring
pub mod Apply
pub mod Process
pub mod Adapter
pub mod Backup
pub mod Patch
pub mod Redaction
pub mod Flows
pub mod Env
