-- ===== src/Lib.antt =====
-- The systemd task driver of Nomad: a model of the program and what holds of it.
--
-- The plugin's Driver answers Nomad's RPCs. It keeps a store of tasks, one Handler each, and a map
-- from units to the tasks that own them. A Handler watches one unit through a Manager and
-- publishes the task's exit once. The Manager talks to systemd over DBus, keeps a registry of the
-- units that are watched, wakes their Handlers, reads their journals and samples their cgroups.
--
-- Which file models what:
--   Units      pkg/systemd/unit.go: UnitState, ToTaskState, ExitResultFromStatus, parseTimestampUsec
--   Policy     plugin/unit.go: compileUnitPolicy and check
--   Config     plugin/config.go: the configurations and Validate; Config/Regex is a matcher by
--              derivatives for unitNamePattern, Config/Names what the pattern means
--   Cgroup     pkg/systemd/cgroup.go: the parsing of cgroup files
--   Logx       pkg/logx/attr.go: attributes and flatten; Logx/Logger is logx.go, Logx/Semconv
--              semconv/semconv.go
--   Manager    pkg/systemd/systemd.go and unit.go: the registry, the connection, Stop. Its children:
--              Jobs, the calls that start, stop, kill and query units; Connect, NewManager and the
--              reconnection; Dispatch, propertiesDispatchLoop; Journal, StreamLogs of journal.go, and
--              Entries, its goroutine's loop; Stats, ResourceStats of cgroup.go; Steps, the step
--              relation of the critical sections; Contexts, what an ended context does; Cancelling,
--              the journal readers, with the cancel calls that follow a lock's release as steps of their
--              own; proofs in Registry, Sections, Sampling, Lifetime and Backoff, and in Memory, Found,
--              Measured and
--              Readings, what a sample says of the cgroup's files
--   Handler    pkg/task/task.go and state.go: the Handler and its critical sections. Its children:
--              Exit, the exit of a task under any interleaving; Observe, one observation; Polling, all
--              of pollTaskState; Stopped, Stop at any point of that loop; Logs and its child Copy, pkg/task/logs.go;
--              Store, pkg/task/store.go
--   Driver     plugin/driver.go and unit.go: the state, claimUnit and releaseUnit. Its children: Tasks,
--              Recovery, Teardown and Stats, the RPCs of plugin/task.go; Setup, SetConfig,
--              plugin/pprof.go and plugin/fingerprint.go; Shutdown; Ownership, Claims, Starting,
--              Recovering, Stopping and Steps, the invariant of the RPCs and its proofs; Configuring,
--              every outcome of SetConfig; Pprof, the servers of plugin/pprof.go with their goroutines;
--              Escalation, when StopTask succeeds; Reload, a second
--              SetConfig; Handles and Restart, the handles of StartTask and their recovery by a later
--              Driver; Service and Serving, the table of tasks and units that Nomad's calls keep;
--              Works and Managing, what the RPCs do to Managers; Channels, which wake channels they
--              change; Overlap, RPCs that interleave
--   Plugin     plugin/about.go, the RPCs that answer with it, and main.go
--   Watch      the path of an exit from systemd to WaitTask: pollTaskState of state.go between its
--              lookup and what it does with the answer, with propertiesDispatchLoop, the wake channel
--              and the Manager's other work in any order; Registered, Started, Recovered and Reached,
--              how StartTask and RecoverTask begin it; Listing, Background, Renewed and Kept, how the
--              tracked tasks and the registered units stay in step; Tracked, the exit of any tracked
--              task
--   Host       what the program calls outside itself, as a record of operations on a world: DBus, the
--              journal, the clock, files, the CPU tracker, regular expressions, Nomad's codecs and events
--   Prelude, Errors    shared tests, lists, maps, integers; errors as values
--   Tests      concrete inputs, on a host in which every call succeeds until its context has ended
--
-- How state is modelled. An operation takes the state and the world and returns its result with
-- both. A mutex's critical section is one function, and concurrency is a sequence of such
-- functions in any order, from any goroutines: Section of Handler/Exit, Step of Manager/Steps, of
-- Driver/Pprof and of Driver/Steps. In Driver/Steps an RPC of the Driver is one step, which starts from any world,
-- and polls and background work lie between RPCs. Driver/Overlap cuts the RPCs at every access to
-- the Store and to the owners, and lets those on different tasks interleave; Nomad makes one call
-- at a time for a task. A loop around a select is a function of what the select receives, in
-- order. Channels that are closed or that wake are numbers and flags of the state: closes counts
-- the closings of waitCh, pending holds the wakes that a channel has not delivered. A Manager is
-- shared by pointer, so the Driver's state holds all Managers that were made, by number, and a
-- Handler has the number of its own. Where the source selects between a goroutine's return, a
-- timer and a channel, the outcome is an argument (StopRace).
--
-- Numbers. Natural numbers are unbounded; where the source converts or parses a machine integer,
-- the bound is tested as it does: timestamps against int64, cgroup values against 64 bits, and a
-- journal entry's time wraps. The fuel of the cgroup scan is the length of the text, which is
-- enough since each line takes a character.
--
-- In Driver/Steps and Manager/Steps a cancel call belongs to the update that it follows, and Stop of
-- a Manager is one update, as Stop of a Handler is where no check is in flight; Manager/Cancelling and
-- Handler/Stopped take these apart.
--
-- Not modelled: the log lines at their places in the code, which change no state, the effect of
-- the writes to the task's fifos, and the HTTP server of pprof: they are input and output. The
-- interface of pkg/systemd/conn.go has no code; its methods are operations of Host.
pub mod Prelude
pub mod Errors
pub mod Units
pub mod Plugin
pub mod Policy
pub mod Config
pub mod Host
pub mod Cgroup
pub mod Manager
pub mod Logx
pub mod Handler
pub mod Driver
pub mod Watch
pub mod Tests
