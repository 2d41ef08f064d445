-- ===== src/Broker/Identity.antt =====
-- What the broker of deadpool/remote/server.py is, for the clients that connect to it.
use deadpool.Base.{ℕ, String, Option}
use deadpool.Result.{Error}
use deadpool.Protocol.Json.{Json, Fields}

-- What `peer_info` tells of the other end of a connection; a certificate is the digest of its text.
pub record Peer : Type 0 where
  pub uid : Option ℕ
  pub certificate : Option String

-- What a server is and asks of a client. `text` is Python's `str` of a value, `decimal` that of a number; `authenticator` gives the name of a principal, or nothing where it
-- raises or its answer is none; `session_text` is the identifier of a session, a new one for each,
-- `error_text` the start of the text of an exception.
pub record Identity : Type 0 where
  pub server_id : String
  pub epoch : String
  pub python_major : ℕ
  pub python_minor : ℕ
  pub serializer : String
  pub serializer_protocol : String
  pub registry_fingerprint : Option String
  pub application_fingerprint : Option String
  pub own_uid : ℕ
  pub authenticator : Option (Peer → Fields → Option String)
  pub peer : ℕ → Peer
  pub session_text : ℕ → String
  pub text : Json → String
  pub decimal : ℕ → String
  pub error_text : Error → String
