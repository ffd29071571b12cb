-- ===== src/Lib.antt =====
-- Verification of the CRDT todo list: state-based replicated data types (crates/crdt-core), their
-- synchronisation between peers over TCP (crates/crdt-sync), and the todo application that is built
-- on both (crates/todo-app).
--
-- CrdtCore/ is crates/crdt-core/src. Each data type has a file with its state and one function for
-- each method, and child modules for what is proved of it: Counter (counter.rs), PnCounter
-- (pn_counter.rs), GSet (g_set.rs), VectorClock (vector_clock.rs), Clock (clock.rs). Traits
-- (traits.rs) is the trait `CvRDT` with the laws that its comment promises, as an interface that the
-- types fill, and what follows from the laws alone: the order of the states, delivery in any order,
-- and the quotient by `==`.
--
-- TodoApp/ is crates/todo-app/src: State (state.rs), Protocol (protocol.rs), Server (server.rs and
-- the task of main.rs that follows remote updates), Config and Main (main.rs). Server has each task
-- by itself. The tasks are put together in four models, from the most detailed to the most abstract:
--   * TodoApp/Process has the tasks of one program, those of the sync layer included, as interleaved
--     steps on the shared state: between the read of a snapshot and its broadcast, or between a
--     merge and its notification, other tasks may run. A `Task` is what the program does by itself,
--     and a `Step` is a task, an operation of a browser, the abort of a browser's task before it
--     reads the state, or a state that is read off a connection. Process/Sessions adds one
--     browser: its socket, the texts in its channel, of which 64 fit, and what it was sent.
--   * TodoApp/Cluster has the processes of all peers and their connections, each a queue of bytes
--     from the peer that opened it to the other; the greeting that comes back is never read.
--     Connections are opened by the reconnecting loop of a configured peer, are pushed to, read and
--     refused, close at either end and lose what is on its way. `Works` is what the programs do with
--     no browser and no lost connection. Cluster/Serves goes between its steps and the loop
--     `serve_frames`. Cluster/Tracks and Cluster/Spreads say what work keeps, and Cluster/Edits
--     follows a browser's request from one peer to the browsers of another.
--   * TodoApp/Network has the processes of all peers, and each state that was ever sent may arrive
--     at any time (Cluster/Refines).
--   * TodoApp/System keeps of each peer its state only: a step is an operation of a browser
--     (`apply`), a push of a state, or the merge of a state that was sent at any time before
--     (Network/Refines); System/Refinement goes to it from the loop over a socket's messages,
--     request by request, and System/Makers says who made the todos that a state names.
-- System/EndToEnd goes from the bytes on the wire to the todos that are shown.
--
-- CrdtSync/ is crates/crdt-sync/src/lib.rs, for any convergent type: the two ends of a connection,
-- frame by frame (CrdtSync, and for what is proved Incoming, Pushes, Exchange and CatchUp), in Node
-- the start of the tasks, the accept loop and the reconnecting loop, and in Changes the channel of
-- local changes, of which 16 fit, as steps that interleave with those of a connection.
--
-- A module Tests stands for the `mod tests` of a source file, with its property tests as functions
-- of their inputs and the bounds of their strategies as predicates.
--
-- Std/ models what the source uses of the standard library: HashMap and HashSet as entries with
-- distinct keys in the order of iteration, `u64` with overflow, and texts as lists of code points.
-- Base passes on the libraries' names. Examples/ runs the program on concrete inputs.
--
-- Methods that change `self` return the new state. An overflowing addition panics in a build of the
-- dev profile and wraps in one of the release profile, so what adds takes the profile and returns
-- an `Option`, in which `none` is the panic; what a panicking task leaves of its state is not
-- followed. The system of replicas runs in the dev profile. `digits` takes fuel, and `to_decimal`
-- gives one round more than the number, which is enough since each round divides by ten. All other
-- recursion is on the structure of lists.
--
-- The codecs (bincode, serde_json), the sockets, the parser and the binding of socket addresses
-- and the scheduler are parameters or arguments: what arrives, whether a frame is taken, whether an
-- address can be bound under those that the program holds, and what other tasks do to the shared
-- state meanwhile. A theorem that needs it assumes that the codec
-- reads back what it wrote, less the fields marked `#[serde(skip)]`. Locks are held for one step
-- at a time, as in the source; in TodoApp/Cluster a push reads the state and writes to its
-- connection in one step, as nothing else writes there. In TodoApp/Process the notification of the
-- sync layer is one step with the operation before it, since it is only counted. Not modelled: the
-- router and the upgrade of a socket, logging and waiting, which change no state, and the browser
-- client, which is not Rust.
pub mod Base
pub mod Std
pub mod CrdtCore
pub mod CrdtSync
pub mod TodoApp
pub mod Examples
