-- ===== src/Tests/Config.antt =====
-- deadpool/remote/config.py at concrete inputs.
use deadpool.Base.{Bool, leb, ◌^◌, ℕ, ◌≤◌, ◌≡◌, refl, true, false, some, ◌⊎◌}
use deadpool.Python.{ℤ, pos, negsuc, int}
use deadpool.Result.{ok}
use deadpool.Config.{
  SslContext, TcpAddress, check_address, check_address_secure, is_loopback, Checked, valid_port,
  positive, positive_int, validate_client_tls,
}
use deadpool.Config.Limits.{default_limits, check_limits, limits_of, IsSound, check_limits-IsSound}

-- an integer that no float can hold
abbrev too_large : ℤ → Bool
too_large (pos n) = leb (2 ^ 1024) n
too_large (negsuc n) = leb (2 ^ 1024) n

default_limits-ok : check_limits too_large default_limits ≡ ok tt
unfolding check_limits default_limits positive_int positive limits_of
default_limits-ok = refl

check_limits-IsSound_example : IsSound (limits_of default_limits)
check_limits-IsSound_example = check_limits-IsSound too_large default_limits default_limits-ok

abbrev context : SslContext
context = record { cert_required = true; check_hostname = true; minimum_version = 12 }

abbrev address : TcpAddress
address = record {
  host = "broker.example";
  port = int (pos 7000);
  ssl_context = some context;
  insecure = false;
  connect_timeout = int (pos 5);
}

address_ok : check_address too_large address ≡ ok tt
unfolding check_address valid_port positive validate_client_tls
address_ok = refl

check_address_secure_example :
    ((n : ℕ) × (address.port ≡ int (pos n)) × (n ≤ 65535))
    × ((is_loopback address.host ≡ true)
        ⊎ ((c : SslContext) × (address.ssl_context ≡ some c) × Checked c))
check_address_secure_example = check_address_secure too_large address address_ok
