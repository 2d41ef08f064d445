-- ===== src/Client.antt =====
-- deadpool/remote/client.py: the client of a remote server. State has its objects, Connect the answer
-- to its HELLO, Options the checks of a submission's options, Completion what ends a future, Threads the
-- steps of its threads, Calls those of the application.
pub mod State
pub mod Connect
pub mod Options
pub mod Completion
pub mod Threads
pub mod Calls
pub mod Honesty
