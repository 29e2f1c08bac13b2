-- ===== src/Lib.antt =====
-- BigBug mirrors source repositories and container images into an organisation's own registries. Its
-- backend (backend/app) is a service with a database, background tasks behind a broker and an
-- in-process scheduler. This library models parts of that backend and proves what makes them correct.
--
-- Parts, files and sources:
--   * Identity: the tables of users, roles, permissions, scopes, teams and providers
--     (backend/app/models/user.py, role.py, permission.py, role_scope.py, team.py, team_member.py,
--     resource_provider.py). `Db` is the state that access control and teams share.
--   * Rbac: access control. Rbac/Permissions, Rbac/Roles, Rbac/Scope and Rbac/Access are the methods of
--     RBACService (backend/app/services/rbac_service.py) under their names; the four families of scope
--     methods are one definition over the kind of scope, and one name each. Rbac/Guards holds the
--     request guards of backend/app/core/rbac.py, which ask Rbac/Permissions and Rbac/Access.
--     Rbac/Steps is the relation of successful changes, and Rbac/Consistent the invariant over it, with
--     the lemmas of the single operations under Rbac/Roles and Rbac/Scope.
--   * Teams: TeamService (backend/app/services/team.py), which asks Rbac/Permissions whether a user is
--     an administrator. Teams/Led holds the lead invariant, with a file for each group of operations.
--   * SyncRuns: the rows that track background tasks (backend/app/models/sync_run.py), the enqueueing
--     (backend/app/tasks/enqueue.py), the wrapper of a task body (backend/app/tasks/run_tracking.py,
--     in SyncRuns/Tracking) and the admin endpoints (backend/app/api/sync_runs.py, in SyncRuns/Admin).
--     SyncRuns/Steps interleaves schedulers, workers and administrators, SyncRuns/Kept is its invariant,
--     and SyncRuns/Steps/Laws says of which interleavings it holds: the reuse of a failed row is not
--     guarded in the code.
--   * Scheduling: the in-process schedulers. Scheduling/Groups is the scheduler of sync groups
--     (backend/app/services/sync_scheduler.py), Scheduling/Passes the fixed passes
--     (backend/app/services/scheduler.py) under their locks (backend/app/tasks/pass_lock.py), which
--     enqueue into the store of SyncRuns. APScheduler's jobs and Redis are records of operations with
--     laws, which the tests fill with lists.
--   * Kernel: the convergence kernel (backend/app/services/sync_engine.py), with a failpoint on either
--     side of the push and of the commit, and the way `sync_image` of backend/app/services/docker.py
--     uses it: a log row is committed first, then the push to the outside, then the commit. Kernel/Passes
--     repeats it over items, and Kernel/Converges compares passes that crash with passes that do not.
--   * Reaper: a pass over stuck stream entries (backend/app/tasks/reaper.py). Reaper/Bound is about how
--     often a task is delivered again, Reaper/Accounts about what becomes of the claimed entries.
--   * Outbox: the notification outbox (backend/app/models/notification_outbox.py), `outbox_write` of
--     the kernel's source, and the sender (backend/app/tasks/outbox_tasks.py). The sender loops on fuel,
--     one round more than there are unsent rows: every batch marks at least one.
--   * Mirroring: the tables of mirrors, their logs, sync groups, source repositories, source groups,
--     pipelines and pipeline runs (backend/app/models/mirror.py, mirror_log.py, sync_group.py,
--     source_repository.py, source_group.py, pipeline.py, pipeline_run.py), and the services over them.
--     Mirroring/Groups is SyncGroupService (backend/app/services/sync_group.py), whose table the
--     scheduler in Scheduling/Groups reads. Mirroring/Mirrors is MirrorService
--     (backend/app/services/mirror.py) and Mirroring/Sync its trigger_sync, which calls
--     Mirroring/Runs, the life of pipeline runs (backend/app/services/pipeline/_runs.py).
--     Mirroring/Pipelines is the configurations (backend/app/services/pipeline/_configs.py),
--     Mirroring/Repositories the handlers of backend/app/api/mirroring.py behind the guards of Rbac,
--     and Mirroring/Cleanup the purge (backend/app/services/cleanup.py) with the cascades that the
--     models declare. Mirroring/Steps is the relation of the operations on mirrors, groups and
--     repositories, Mirroring/Sound the invariant over it, and Mirroring/Assignment the abstract view,
--     a map from live mirrors to groups.
--   * Providers: ProviderService (backend/app/services/providers/service.py) over the provider table of
--     Identity, which Teams changes too. Providers/Changes and Providers/Updates are its operations,
--     Providers/Access compares the list with single reads, Providers/Steps is the relation of changes
--     and Providers/Placed the invariant over it.
--   * Prelude: names of the libraries, rows as lists, Boolean tests with their equality, and results.
--   Each part has a module Tests with concrete runs.
--
-- Conventions. A table is the list of its rows and a query a Boolean selection over them; a primary
-- key that the database draws comes from a counter in the state. A method takes the tables and
-- returns its result with the new tables; an exception is a value, and leaves the tables of its
-- session as they were, because the session is rolled back. What is committed before an exception
-- stays, and is then returned beside the error (SyncRuns/Admin, and `Call` in Mirroring). Whether a
-- database or a broker takes a call is a parameter where the code goes on after a failure. A clock
-- reading is an argument. Two workers may interleave at the points where the code awaits between a
-- read and an update: there the read value is an argument of its own (SyncRuns/Tracking.adopt). What
-- GitLab answers is a parameter of the operation that asks. Recursion is structural but for the loop
-- of Outbox.
--
-- Not modelled: the order of rows that only the database's collation decides, texts of errors and
-- logs, audit events other than the outbox's, token signatures (the decoded payload is an argument),
-- the broker and Redis themselves, HTTP routing and schemas; of mirrors the listing, importing,
-- freshness and integrity checks; of pipelines the components and their runs; of providers the
-- dispatch of actions and the connection tests; and the services for images, charts, releases,
-- reports, trust stores and sign-in.
mod Prelude
pub mod Identity
pub mod Rbac
pub mod Teams
pub mod SyncRuns
pub mod Mirroring
pub mod Providers
pub mod Scheduling
pub mod Kernel
pub mod Reaper
pub mod Outbox
