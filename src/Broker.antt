-- ===== src/Broker.antt =====
-- deadpool/remote/server.py: the broker. State has its objects and its connections, Requests the
-- life of a request record, Hello and Sessions the handshake, Submit, Dispatch, Cancel, Groups and
-- Messages the handlers.
pub mod Identity
pub mod State
pub mod Requests
pub mod Submit
pub mod Cancel
pub mod Descriptor
pub mod Dispatch
pub mod Hello
pub mod Sessions
pub mod Groups
pub mod Messages
pub mod Step
pub mod Handlers
pub mod Cancelling
pub mod Dispatching
pub mod Submitting
pub mod Opening
pub mod Events
pub mod Quotas
pub mod Balance
pub mod Reserving
pub mod Books
pub mod Lifecycle
pub mod Connections
pub mod Admission
pub mod GroupEnd
