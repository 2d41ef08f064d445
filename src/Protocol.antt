-- ===== src/Protocol.antt =====
-- deadpool/remote/_protocol.py: the wire protocol of the remote executor. Json has the control
-- values and their validation, Frame the prefix of a frame, Reader the reassembly of messages,
-- Receive the reading of frames from the bytes of a connection, Sorting the order of an object's
-- fields, and Send the division of messages into frames.
pub mod Sorting
pub mod Json
pub mod Frame
pub mod Reader
pub mod Receive
pub mod WireLimits
pub mod Send
