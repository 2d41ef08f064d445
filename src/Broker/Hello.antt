-- ===== src/Broker/Hello.antt =====
-- The first message of a connection in deadpool/remote/server.py: `_validate_hello`, the checks of
-- `_handshake` and the principal of a peer.
use Prim.Native.String.{count as char_count, ◌++◌ as append}
use deadpool.Base.{
  ℕ, Bool, true, false, not, String, Option, none, some, List, [], ◌∷◌, ◌&&◌, ◌||◌, if◌then◌else◌,
  leb, ◌==◌,
}
use deadpool.Dict.{nat_key, text_key}
use deadpool.Result.{Result, guard, ◌>>◌, remote_protocol_error}
use deadpool.Config.Limits.{Limits}
use deadpool.Protocol.Json.{Json, int, str, arr, Items, nil, cons, Fields}
use deadpool.Protocol.Frame.{major_version, minor_version}
use deadpool.Protocol.Receive.{dict_of}
use deadpool.Python.{pos}
use deadpool.Protocol.WireLimits.{same_wire_limits, has_all, validate_wire_limits, is_positive_int}
use deadpool.Broker.Identity.{Identity}
use deadpool.Broker.State.{same, get}
pub mod Reading
pub mod Greeting

abbrev pub holds : (Json → Bool) → Option Json → Bool
holds f none = false
holds f (some v) = f v

abbrev pub is_int : Json → Bool
is_int (int n) = true
is_int _ = false

abbrev pub is_text : Json → Bool
is_text (str s) = true
is_text _ = false

abbrev pub is_name : Json → Bool
is_name (str s) = not (same s "")
is_name _ = false

abbrev pub text_in : Option Json → String
text_in (some (str s)) = s
text_in _ = ""

unfoldable pub all_items : (Json → Bool) → Items → Bool
all_items f nil = true
all_items f (cons v vs) = f v && all_items f vs

unfoldable pub any_item : (Json → Bool) → Items → Bool
any_item f nil = false
any_item f (cons v vs) = f v || any_item f vs

abbrev pub items_in : Option Json → Items
items_in (some (arr vs)) = vs
items_in _ = nil

-- a list of two integers, and a list of values
abbrev pub is_int_pair : Json → Bool
is_int_pair (arr (cons x (cons y nil))) = is_int x && is_int y
is_int_pair _ = false

abbrev pub is_list : (Json → Bool) → Json → Bool
is_list f (arr vs) = all_items f vs
is_list f _ = false

abbrev pub required : List String
required =
    "versions" ∷ "client_instance_id" ∷ "serializer" ∷ "serializer_protocol" ∷ "python"
    ∷ "capabilities" ∷ "max_result_bytes" ∷ "wire" ∷ "wire_limits" ∷ []

-- `_validate_hello`
unfoldable pub validate_hello : Fields → Result (Unit {0})
unfolding has_all all_items validate_wire_limits
validate_hello hello = do
  guard (has_all required (dict_of hello)) remote_protocol_error
  guard (holds (is_list is_int_pair) (get "versions" hello)) remote_protocol_error
  guard (holds is_int_pair (get "python" hello)) remote_protocol_error
  guard (holds (is_list is_text) (get "capabilities" hello)) remote_protocol_error
  guard (holds is_name (get "client_instance_id" hello)) remote_protocol_error
  guard (holds is_name (get "serializer" hello)) remote_protocol_error
  guard (holds is_name (get "wire" hello)) remote_protocol_error
  guard (leb (char_count (text_in (get "client_instance_id" hello))) 128) remote_protocol_error
  guard (holds (λ v. is_text v || is_int v) (get "serializer_protocol" hello)) remote_protocol_error
  validate_wire_limits (get "wire_limits" hello)
  guard (holds is_positive_int (get "max_result_bytes" hello)) remote_protocol_error

abbrev pub says : String → Json → Bool
says text (str s) = same s text
says text _ = false

-- value == [m, n]
abbrev pub is_pair : ℕ → ℕ → Json → Bool
is_pair m n (arr (cons (int (pos x)) (cons (int (pos y)) nil))) = x == m && y == n
is_pair m n _ = false

-- a fingerprint that the server asks for is not the client's
abbrev pub differs : Option String → Option Json → Bool
differs none v = false
differs (some text) v = not (holds (says text) v)

-- The reason with which `_handshake` refuses a valid HELLO as incompatible, if it does.
unfoldable pub refusal : Limits → Identity → Fields → Option String
unfolding any_item same_wire_limits
refusal l i hello =
    if not (same_wire_limits l (get "wire_limits" hello))
    then some "wire_limits"
    else if not (any_item (is_pair major_version minor_version) (items_in (get "versions" hello)))
    then some "protocol"
    else if not (same (text_in (get "serializer" hello)) i.serializer)
        || not
            (holds (λ v. same (i.text v) i.serializer_protocol) (get "serializer_protocol" hello))
    then some "serializer"
    else if any_item (says "callable") (items_in (get "capabilities" hello))
        && not (holds (is_pair i.python_major i.python_minor) (get "python" hello))
    then some "python"
    else if differs i.registry_fingerprint (get "registry_fingerprint" hello)
    then some "registry_fingerprint"
    else if differs i.application_fingerprint (get "application_fingerprint" hello)
    then some "application_fingerprint"
    else none

abbrev pub uid_name : Identity → ℕ → Option String
uid_name i uid = some (append "uid:" (i.decimal uid))

-- a peer over a Unix socket, and one over TCP
abbrev pub unix_principal : Identity → Option ℕ → Option String
unix_principal i none = uid_name i i.own_uid
unix_principal i (some uid) = if uid == i.own_uid then uid_name i uid else none

abbrev pub tcp_principal : Option String → Option String
tcp_principal none = some "tcp:loopback"
tcp_principal (some identity) = some (append "tls:" identity)

-- not principal.name
abbrev pub checked_name : Option String → Option String
checked_name none = none
checked_name (some name) = if same name "" then none else some name

-- The name of a peer's principal, where it is authenticated.
unfoldable pub principal_of : Identity → ℕ → Bool → Fields → Option String
principal_of i n over_unix hello = elim i.authenticator [
  | some f ↦ checked_name (f (i.peer n) hello)
  | none ↦
      if over_unix then unix_principal i (i.peer n).uid else tcp_principal (i.peer n).certificate
]
