-- ===== src/Tests/Client.antt =====
-- deadpool/remote/client.py at a concrete run: a request is queued, the connection is lost before the
-- sender takes it, and its future ends.
use deadpool.Base.{◌↔◌, Bool, some, String, if◌then◌else◌}
use deadpool.Python.{ℤ, pos, int, float, finite}
use deadpool.Result.{ok}
use deadpool.Protocol.Frame.{welcome, handshake_rejected}
use deadpool.Broker.Sessions.{welcome_control}
use deadpool.Errors.{authentication_error, compatibility_error}
use deadpool.Client.Connect.{check_response}
use deadpool.Client.Connect.Agreement.{check_response-answer}
use deadpool.Client.Options.{Options, plain, options_of, check_options, IsValid}
use deadpool.Client.Options.Validity.{check_options_iff}
use deadpool.Tests.Broker.{setup as broker_setup}
use deadpool.Protocol.WireLimits.{SameWireLimits}
use deadpool.Base.{◌≢◌, ◌⊎◌, String}
use deadpool.Base.{ℕ, ◌≡◌, refl, true, false, none, List, [], ◌∷◌}
use deadpool.Protocol.Json.{str, end, field}
use deadpool.Client.State.{Setup, loaded, new_client}
use deadpool.Client.Calls.{Event, registers, posts, loses, sends, looks_at_next, works, run}
use deadpool.Client.Honesty.{is_reported, is_sent}
use deadpool.Client.Honesty.Methods.{LoadsFairly}
use deadpool.Client.Honesty.Runs.{run-honest}
use deadpool.Tests.Protocol.{limits, limits-IsSound, hash}

abbrev setup : Setup ℕ
setup = record {
  limits = limits;
  decimal = λ n. "1";
  loads = λ payload. loaded 0;
  is_exception = λ v. false;
  sha256 = hash;
  validate_control = λ control. true;
}

setup_fair : LoadsFairly setup
setup_fair payload x h = cc

abbrev events : List Event
events =
    registers
    ∷ posts 1 end (3 ∷ []) false
    ∷ loses
    ∷ looks_at_next
    ∷ sends true
    ∷ sends true
    ∷ works
    ∷ []

events_reported : is_reported 1 (run setup events (new_client "a" 10)) ≡ true
unfolding run deadpool.Dict.lookup deadpool.Client.Threads.register new_client deadpool.Dict.insert
    deadpool.Base.ℕ_discrete deadpool.Future.new deadpool.Future.set_sent
    deadpool.Future.set_exception deadpool.Client.Honesty.is_unavailable deadpool.Errors.make
events_reported = refl

run-honest_example :
    ((run setup events (new_client "a" 10)).connected ≡ false)
    × (is_sent 1 (run setup events (new_client "a" 10)) ≡ false)
run-honest_example = run-honest setup setup_fair events "a" 10 1 events_reported

abbrev reason : String
reason = "protocol"

check_response-answer_example :
    let welcomed =
      check_response limits welcome (welcome_control broker_setup broker_setup.identity 0 8) in
    let rejected = check_response limits handshake_rejected (field "reason" (str reason) end) in
    ((SameWireLimits limits limits × (welcomed ≡ none))
      ⊎ ((¬ SameWireLimits limits limits) × (welcomed ≡ some compatibility_error)))
    × (((reason ≡ "authentication") × (rejected ≡ some authentication_error))
        ⊎ ((reason ≢ "authentication") × (rejected ≡ some compatibility_error)))
check_response-answer_example = check_response-answer limits broker_setup 0 8 reason limits-IsSound

abbrev no_float : ℤ → Bool
no_float n = false

abbrev options : Options
options =
    options_of (plain (float (finite (pos 30) (pos 0))))
      (("deadpool_timeout", plain (int (pos 5))) ∷ [])

check_options_iff_example : (check_options no_float options ≡ ok tt) ↔ IsValid no_float options
check_options_iff_example = check_options_iff no_float options
