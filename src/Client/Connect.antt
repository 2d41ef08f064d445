-- ===== src/Client/Connect.antt =====
-- `_connect` of deadpool/remote/client.py: what the client makes of the server's answer to its HELLO.
use deadpool.Base.{
  ℕ, Bool, true, false, not, String, Option, none, some, List, [], ◌∷◌, if◌then◌else◌,
}
use deadpool.Dict.{lookup, text_key}
use deadpool.Result.{Result, ok, err}
use deadpool.Config.Limits.{Limits}
use deadpool.Protocol.Json.{Json, str, obj, Fields}
use deadpool.Protocol.Frame.{MessageType, welcome, handshake_rejected}
use deadpool.Protocol.Reader.{Message}
use deadpool.Protocol.WireLimits.{same_wire_limits, validate_wire_limits}
use deadpool.Broker.State.{same, get}
use deadpool.Errors.{ErrorClass, authentication_error, compatibility_error, protocol_error}
pub mod Agreement

abbrev pub says : String → Option Json → Bool
says text (some (str s)) = same s text
says text _ = false

-- the checks of a WELCOME: the error that one of them raises, if one does
unfoldable pub check_welcome : Limits → Fields → Option ErrorClass
unfolding validate_wire_limits same_wire_limits
check_welcome l control =
    if not (says "experimental-deadpool-private-v1" (get "wire" control))
    then some compatibility_error
    else elim (validate_wire_limits (get "wire_limits" control)) [
      | err x ↦ some protocol_error
      | ok _ ↦
          if same_wire_limits l (get "wire_limits" control) then none else some compatibility_error
    ]

-- the error that `_connect` raises for a response, if it raises
unfoldable pub check_response : Limits → MessageType → Fields → Option ErrorClass
unfolding check_welcome
check_response l handshake_rejected control = some (
    if says "authentication" (get "reason" control)
    then authentication_error
    else compatibility_error)
check_response l welcome control = check_welcome l control
check_response l _ control = some protocol_error
