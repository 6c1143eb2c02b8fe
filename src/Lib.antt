-- ===== src/Lib.antt =====
-- eneste: single-threaded async primitives (src/*.rs of the crate): an event with listeners, and the
-- locks and channels that are built on it.
--
-- Parts, and the files that model them:
-- - src/event.rs: Event.antt. `Inner` is the state behind the `Rc<RefCell<...>>`; every method of
--   `Event`, `EventListener` and `EventStream` is a function from `Inner` to `Inner`. Event/Map is
--   the `BTreeMap`, Event/Stream the streams, which src/emitter.rs shares.
-- - src/lock/mutex.rs and src/lock/rwlock.rs: Mutex.antt and RwLock.antt give the operations; the loop
--   of the lock futures is `lock_poll` of Lock.antt over the interface `LockOps`, whose laws
--   (`LockLaws`) both locks prove. Lock/System is a step relation over any number of tasks that begin,
--   poll, cancel and release in any order.
-- - src/channel/mod.rs, oneshot.rs, mpsc.rs: Channel.antt, Oneshot.antt, Mpsc.antt. The state that the
--   handles share is one record; each call of a handle is a function of it, and histories of calls are
--   step relations: Mpsc/Order for the values, Mpsc/Wakeup for the receiver, and Mpsc/Senders/Wakeup
--   for the senders of a channel of size one. Oneshot/Awaiting joins the oneshot channel to a task of the
--   executor that awaits it.
-- - src/executor.rs: Executor.antt. The stores of headers and of slots are maps from task ids, which are
--   never reused. What a future does when it is polled or dropped is a parameter; Executor/Calls says
--   which calls of the executor it may make, and Executor/System is the step relation of wakers, handles
--   and the owner of the executor. There each method is one step. The field `outside`, which the source
--   does not have, is what the futures share with the rest of the program; the executor does not touch it.
--   Executor/Threads models wakers on any number of threads against the executor's own thread, one atomic
--   access a step, with the spin lock of the inbox; it leaves out the slots and what a poll does, and
--   assumes sequentially consistent atomics. Executor/Blocking has `block_on` against a
--   plain loop over one future.
--   Executor/Wakers joins the executor to the events that its tasks wait on.
-- - src/emitter.rs: Emitter.antt, for the emitter and the futures `Listener` and `SubscribeOnce`, whose
--   stream and closure are parameters. Emitter/Weakly has the `listen` methods of `EventTargetExt`,
--   and Emitter/Delivery runs an emitter and a listener together.
-- - src/upgrade.rs and src/atom.rs: Upgrade.antt and Atom.antt, over the strong counts of allocations.
-- - src/spawner.rs and src/util.rs: Spawner.antt and Util.antt. The spawner is a parameter.
-- - src/poll_lock.rs: PollLock.antt, over the functions of Mutex.antt, and LockedSink.antt, whose inner
--   sink is a parameter that may answer anything; LockedSink/System is the step relation of a sink that
--   is used as the trait `Sink` asks for, while other tasks use the mutex.
-- - src/waitgroup.rs: WaitGroup.antt. The future of `wait` is a state machine over the event stream;
--   WaitGroup/System is the step relation of a group, its tickets and one waiter.
-- - src/cell.rs and src/ref_cell.rs: Cells.antt. The borrow state of the `RefCell` is a number of readers
--   and a flag; the comparison of contents is a parameter.
-- - the `tests` modules of these files: Suite.antt and below. A test is a script, the list of its calls
--   with the outcomes that it asserts, under the name of its Rust function; it runs on the functions of
--   the models. Strings and vectors are written as numbers, loops of the tests are written out, and what
--   a counting waker has counted is the list `woken`.
--
-- Conventions. A waker is the number of its task, and the field `woken` of `Inner`, which the source
-- does not have, lists the calls of `Waker::wake` in their order. Wakers only schedule: code that a
-- waker runs on the spot inside `wake` is outside the model. A panic (`unreachable!`, `assert!`,
-- `expect`) is `none`. `usize` has 64 bits and wraps, as in a release build; theorems that need a
-- counter not to wrap have that as a hypothesis (listener ids, and the number of tasks of an `RwLock`).
-- Dropping a value is a call of the function that models its `Drop`, in the place and order of the
-- source. Poll loops take fuel: three rounds are enough for a lock future, four for a stream and two for
-- the future of `wait` (Lock/Loop, Event/Stream/Loop and WaitGroup/Answer give the equations), two for
-- `poll_lock` and for the `poll_ready` of a sink, three for the receiver of a bounded channel, and a
-- `Listener` needs two more than its stream has items. Theorems that give the answer of a poll of a
-- bounded channel name their fuel, and those on its histories hold for polls of any fuel. The loop of
-- `block_on` may run as long as tasks wake each other; Executor/Blocking says how many rounds are
-- enough for a future that is alone.
--
-- Not modelled: `Debug` output, the module declarations, the wakers of the tests and the benchmark, the
-- implementation of `DriverableSpawner` for compio, which only calls that library, and code that
-- runs inside the drop of a user's value or closure, other than the future of a task.
pub mod Prelude
pub mod Event
pub mod Lock
pub mod Mutex
pub mod RwLock
pub mod PollLock
pub mod LockedSink
pub mod Channel
pub mod Oneshot
pub mod Mpsc
pub mod Upgrade
pub mod Atom
pub mod Spawner
pub mod Util
pub mod Emitter
pub mod WaitGroup
pub mod Cells
pub mod Executor
pub mod Suite
