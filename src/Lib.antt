-- ===== src/Lib.antt =====
-- A model of deadpool, a process pool for Python with a broker that serves remote clients. Paths are
-- from the repository's root.
--
-- deadpool/remote/server.py, the broker, accepts sessions, queues their requests with the scheduler
-- of deadpool/remote/_scheduler.py, hands them to the local pool of deadpool/_pool.py and answers
-- over the frames of deadpool/remote/_protocol.py, within the limits of deadpool/remote/config.py.
--
-- Base, Result, Python, Dict and Collections hold what the parts share: tests, lists, exceptions as
-- values, Python's values, dicts, deques and heaps. Config models config.py, with Config.Limits for
-- `RemoteLimits`. Protocol models _protocol.py: Json the validation of headers, Frame the 16 bytes
-- of a prefix, Reader `MessageReader._accept`, Receive the reading of frames, Send `send_message`,
-- WireLimits what both ends compare, Sorting the order of the fields that `_json_dumps` writes.
-- Scheduler models _scheduler.py: Views says what a scheduler holds, Order and Rounds how it serves.
-- Broker models server.py: Identity and State its objects, Requests the life of a record, Hello and
-- Sessions the handshake, Messages what it makes of a message, Submit, Cancel, Groups and Dispatch
-- the handlers, Step the changes that they make, Events runs of them; Books, Quotas, Connections and
-- Lifecycle hold what the runs keep, Admission whom the handshake lets in, GroupEnd how a group
-- ends, Hello.Reading and Hello.Greeting what a HELLO that passed says, Descriptor how an outcome's
-- descriptor is cut. Pool models the workers, the queue and the counters of _pool.py, Pool.Workers
-- the number of its workers. Future models _future.py and Errors errors.py, of deadpool/remote.
-- Client models client.py there: Connect the answer to its HELLO, Options the checks of a
-- submission's options, State its objects, Completion what ends a future, Threads the steps of its
-- threads, Calls those of the application; Honesty is about what it reports. Worker models
-- _worker.py and serializer.py. Tests has the theorems at concrete inputs.
--
-- Objects that the broker shares between dicts are numbered and kept in one table each, so that
-- every dict holds the number. A handler is a function on the whole state, as it runs under the one
-- lock; an interleaving of handlers is a list of events. What a local future calls back when it is
-- cancelled (`_pool_done`, then `_complete_local`) is an event of its own, where the source runs it
-- inside the cancelling handler: every order of the two is among the runs.
--
-- The client's threads interleave at the points where they take its lock or a queue: the sender
-- takes an item, reads the socket and writes in three steps, the loss of a connection looks at the
-- futures one by one, and the completion lane does one piece of work at a time. A future's
-- settlement and the handing out of its callbacks are one step. A `put` that waits is the step at
-- which its wait ends.
--
-- `receive` runs on fuel, one unit per frame; the bytes of the stream are enough, since each frame
-- takes 16 bytes at least. The search of `_fit_terminal_descriptor` has one unit of fuel for each
-- length that it may try. Everything else is structural recursion.
--
-- Parameters are what is not of the repository: SHA-256, `json.loads` and `json.dumps` with the
-- decoding of UTF-8, Python's `int` of a text, its `str` of a value, the other end of a socket, the
-- authenticator, the clock, the authorizer, the serializer's `loads`, the integers that no float can
-- hold, the pickler and the calls of a worker.
--
-- Not modelled are the processes and pipes of the pool, sockets, threads, forks, start-up, the
-- states of a shutdown, the client's queries and its dispatcher of callbacks, what `get_statistics`
-- collects, and the timeouts of single reads and writes.
pub mod Base
pub mod Result
pub mod Python
pub mod Dict
pub mod Collections
pub mod Config
pub mod Protocol
pub mod Errors
pub mod Future
pub mod Client
pub mod Worker
pub mod Scheduler
pub mod Broker
pub mod Pool
pub mod Tests
