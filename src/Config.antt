-- ===== src/Config.antt =====
-- deadpool/remote/config.py: the validation of addresses, listeners and limits. Paths, TLS contexts
-- and uids are what their checks read of them.
pub mod Limits
use deadpool.Base.{
  ℕ, suc, ◌+◌, ◌≤◌, ◌<◌, ◌*◌, ◌≡◌, refl, Bool, true, false, not, String, Option, none, some, List,
  [], ◌∷◌, arith, ltb, leb, ◌||◌, ◌&&◌, ◌==◌, if◌then◌else◌, ◌⊎◌, inl, inr, Option-cases,
}
use text.Mathlib.Text.{◌==◌ as str_eq}
use deadpool.Python.{
  ℤ, pos, negsuc, PyValue, int, bool, float, str, none_value, above, nonpositive, negative,
  is_finite, float_nonpositive,
}
use deadpool.Result.{
  Result, ok, err, type_error, value_error, overflow_error, guard, ◌>>=◌, ◌>>◌, >>-eq-ok,
}

-- `_positive_int`
unfoldable pub positive_int : PyValue → Result (Unit {0})
positive_int (int n) = guard (not (nonpositive n)) value_error
positive_int _ = err type_error

-- `_positive`; math.isfinite raises OverflowError for an integer that no float can hold (`too_large`)
unfoldable pub positive : (ℤ → Bool) → PyValue → Result (Unit {0})
positive too_large (int n) =
    guard (not (nonpositive n)) value_error >> guard (not (too_large n)) overflow_error
positive too_large (float x) = guard (not (float_nonpositive x || not (is_finite x))) value_error
positive too_large _ = err type_error

-- the checks of a port, in `TcpAddress` and in `TcpListener`
unfoldable pub valid_port : PyValue → Result (Unit {0})
valid_port (int n) = guard (not (negative n || above n 65535)) value_error
valid_port _ = err type_error

-- What `_validate_client_tls` and `_validate_server_tls` read of a context. Versions are numbered
-- in order, TLS 1.2 is 12.
pub record SslContext : Type 0 where
  pub cert_required : Bool
  pub check_hostname : Bool
  pub minimum_version : ℕ

unfoldable pub validate_client_tls : SslContext → Result (Unit {0})
validate_client_tls c = do
  guard (c.cert_required && c.check_hostname) value_error
  guard (not (ltb c.minimum_version 12)) value_error

unfoldable pub validate_server_tls : SslContext → Result (Unit {0})
validate_server_tls c = do
  guard c.cert_required value_error
  guard (not (ltb c.minimum_version 12)) value_error

abbrev pub is_loopback : String → Bool
is_loopback host = str_eq host "127.0.0.1"

abbrev pub when_some : Option SslContext → (SslContext → Result (Unit {0})) → Result (Unit {0})
when_some none f = ok tt
when_some (some c) f = f c

abbrev pub is_none {ℓ} : {A : Type ℓ} → Option A → Bool
is_none none = true
is_none (some a) = false

pub record TcpAddress : Type 0 where
  pub host : String
  pub port : PyValue
  pub ssl_context : Option SslContext
  pub insecure : Bool
  pub connect_timeout : PyValue

-- `TcpAddress.__post_init__`
unfoldable pub check_address : (ℤ → Bool) → TcpAddress → Result (Unit {0})
check_address too_large a = do
  valid_port a.port
  positive too_large a.connect_timeout
  guard (not (is_none a.ssl_context && not a.insecure)) value_error
  when_some a.ssl_context validate_client_tls
  guard (not (a.insecure && not (is_loopback a.host))) value_error

pub record TcpListener : Type 0 where
  pub host : String
  pub port : PyValue
  pub ssl_context : Option SslContext
  pub insecure : Bool
  pub backlog : PyValue

-- `TcpListener.__post_init__`
unfoldable pub check_listener : TcpListener → Result (Unit {0})
unfolding valid_port positive_int validate_server_tls
check_listener a = do
  valid_port a.port
  positive_int a.backlog
  guard (not (is_none a.ssl_context && not a.insecure)) value_error
  when_some a.ssl_context validate_server_tls
  guard (not (a.insecure && not (is_loopback a.host))) value_error

pub record UnixListener : Type 0 where
  pub stale_policy : String
  pub mode : PyValue
  pub backlog : PyValue
  pub owner_uid : PyValue
  pub owner_gid : PyValue

-- 0 <= value <= 0o777
abbrev valid_mode : PyValue → Result (Unit {0})
valid_mode (int n) = guard (not (negative n || above n 0o777)) value_error
valid_mode _ = err type_error

abbrev valid_owner : PyValue → Result (Unit {0})
valid_owner none_value = ok tt
valid_owner (int n) = guard (not (negative n)) value_error
valid_owner _ = err value_error

-- `UnixListener.__post_init__`
unfoldable pub check_unix_listener : UnixListener → Result (Unit {0})
unfolding positive_int
check_unix_listener a = do
  guard (str_eq a.stale_policy "error" || str_eq a.stale_policy "force_unlink") value_error
  valid_mode a.mode
  positive_int a.backlog
  valid_owner a.owner_uid
  valid_owner a.owner_gid

-- A port that passes is a number of 16 bits.
pub valid_port-ok : (v : PyValue) → valid_port v ≡ ok tt → (n : ℕ) × (v ≡ int (pos n)) × (n ≤ 65535)
unfolding valid_port
valid_port-ok (int (pos n)) h = (n, refl, ground arith)
valid_port-ok (int (negsuc n)) h = cc
valid_port-ok (bool b) h = cc
valid_port-ok (float x) h = cc
valid_port-ok (str s) h = cc
valid_port-ok none_value h = cc

abbrev pub Checked : SslContext → Type 0
Checked c = (c.cert_required ≡ true) × (c.check_hostname ≡ true) × (12 ≤ c.minimum_version)

validate_client_tls-ok : (c : SslContext) → validate_client_tls c ≡ ok tt → Checked c
unfolding validate_client_tls
validate_client_tls-ok c h = ground arith

-- What the checks of an address say of its port and of its transport.
check_address_parts :
    (too_large : ℤ → Bool) (a : TcpAddress)
    → check_address too_large a ≡ ok tt
    → (valid_port a.port ≡ ok tt)
      × (when_some a.ssl_context validate_client_tls ≡ ok tt)
      × ((is_none a.ssl_context && not (is_loopback a.host)) ≡ false)
unfolding check_address
check_address_parts too_large a h =
    let (port, h₁) = >>-eq-ok (valid_port a.port) _ h in
    let (_, h₂) = >>-eq-ok (positive too_large a.connect_timeout) _ h₁ in
    let (explicit, h₃) = >>-eq-ok (guard (not (is_none a.ssl_context && not a.insecure)) _) _ h₂ in
    let (tls, local) = >>-eq-ok (when_some a.ssl_context validate_client_tls) _ h₃ in
    (port, tls, ground (arith, explicit, local))

-- An address that passes its checks is reached over checked TLS or is on the loopback host, at a
-- port of 16 bits: certificates and the host's name are verified at TLS 1.2 or newer, or nothing
-- leaves the machine.
pub check_address_secure :
    (too_large : ℤ → Bool) (a : TcpAddress)
    → check_address too_large a ≡ ok tt
    → ((n : ℕ) × (a.port ≡ int (pos n)) × (n ≤ 65535))
      × ((is_loopback a.host ≡ true) ⊎ ((c : SslContext) × (a.ssl_context ≡ some c) × Checked c))
check_address_secure too_large a h =
    let (port, tls, local) = check_address_parts too_large a h in
    (
      valid_port-ok a.port port,
      elim (Option-cases a.ssl_context) [
        | inl e ↦ inl (ground arith)
        | inr (c, e) ↦ inr (c, e, validate_client_tls-ok c (rw e at tls))
      ],
    )
