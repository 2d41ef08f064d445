-- ===== src/Client/Connect/Agreement.antt =====
-- What the broker of deadpool/remote/server.py answers to a HELLO, the client of
-- deadpool/remote/client.py reads as it was meant.
use deadpool.Base.{
  ℕ, zero, suc, ◌<◌, not, ◌≡◌, ◌≢◌, refl, sym, ◌∙◌, Bool, Bool-cases, ite-case, false≢true, ◌⊎◌,
  inl, inr, true, String, none, some, arith, if◌then◌else◌,
}
use deadpool.Dict.{lookup, insert, text_eq}
use deadpool.Python.{pos, nonpositive}
use deadpool.Result.{ok}
use deadpool.Config.Limits.{Limits, IsSound}
use deadpool.Protocol.Json.{str, obj, Fields, end, field}
use deadpool.Protocol.Frame.{welcome, handshake_rejected}
use deadpool.Protocol.WireLimits.{
  wire_limits, same_wire_limits, SameWireLimits, same_wire_limits_iff, validate_wire_limits,
  has_all, only_has, all_positive,
}
use deadpool.Broker.State.{Setup, same, get}
use deadpool.Broker.Sessions.{welcome_control}
use deadpool.Errors.{authentication_error, compatibility_error}
use deadpool.Client.Connect.{says, check_welcome, check_response}

positive_count : (n : ℕ) → 0 < n → not (nonpositive (pos n)) ≡ true
positive_count zero h = ground (arith, h)
positive_count (suc n) h = refl

-- What a server with sound limits sends of them is valid.
pub wire_limits-valid :
    (l : Limits) → IsSound l → validate_wire_limits (some (obj (wire_limits l))) ≡ ok tt
unfolding validate_wire_limits wire_limits has_all only_has all_positive lookup insert text_eq
wire_limits-valid l v =
    rw
      (
        positive_count l.max_control_bytes v.max_control_bytes_pos,
        positive_count l.max_frame_payload_bytes v.max_frame_payload_bytes_pos,
        positive_count l.max_message_bytes v.max_message_bytes_pos,
        positive_count l.max_metadata_bytes v.max_metadata_bytes_pos,
        positive_count l.max_chunks v.max_chunks_pos,
      )
      refl

-- The fields of a WELCOME that the client reads.
welcome_fields :
    (e : Setup) (sid limit : ℕ)
    → let control = welcome_control e e.identity sid limit in
      (get "wire" control ≡ some (str "experimental-deadpool-private-v1"))
      × (get "wire_limits" control ≡ some (obj (wire_limits e.limits)))
unfolding lookup insert text_eq
welcome_fields e sid limit = (refl, refl)

rejection_fields : (text : String) → get "reason" (field "reason" (str text) end) ≡ some (str text)
unfolding lookup insert text_eq
rejection_fields text = refl

wire_says :
    says "experimental-deadpool-private-v1" (some (str "experimental-deadpool-private-v1")) ≡ true
unfolding text_eq
wire_says = refl

check_welcome_lem :
    (l : Limits) (control server : Fields)
    → get "wire" control ≡ some (str "experimental-deadpool-private-v1")
    → get "wire_limits" control ≡ some (obj server)
    → validate_wire_limits (some (obj server)) ≡ ok tt
    → check_welcome l control
      ≡ (if same_wire_limits l (some (obj server)) then none else some compatibility_error)
unfolding check_welcome
check_welcome_lem l control server wire limits valid =
    rw (wire, wire_says, limits, valid, limits) refl

-- The client takes the server's limits of the wire exactly where they are its own.
welcome_answer :
    (l : Limits) (e : Setup) (sid limit : ℕ)
    → IsSound e.limits
    → let answer = check_response l welcome (welcome_control e e.identity sid limit) in
      (SameWireLimits l e.limits × (answer ≡ none))
      ⊎ ((¬ SameWireLimits l e.limits) × (answer ≡ some compatibility_error))
unfolding check_response check_welcome
welcome_answer l e sid limit v =
    let (wire, limits) = welcome_fields e sid limit in
    let valid = wire_limits-valid e.limits v in
    let (sound, complete) = same_wire_limits_iff l e.limits in
    let compared =
      check_welcome_lem l (welcome_control e e.identity sid limit) (wire_limits e.limits) wire
        limits valid in
    elim (Bool-cases (same_wire_limits l (some (obj (wire_limits e.limits))))) [
      | inl same ↦ inl (sound same, rw (compared, same) refl)
      | inr other ↦ inr (λ s. false≢true (sym other ∙ complete s), rw (compared, other) refl)
    ]

rejection_answer :
    (l : Limits) (text : String)
    → let answer = check_response l handshake_rejected (field "reason" (str text) end) in
      ((text ≡ "authentication") × (answer ≡ some authentication_error))
      ⊎ ((text ≢ "authentication") × (answer ≡ some compatibility_error))
unfolding check_response
rejection_answer l text = rw (rejection_fields text) (
    ite-case
      (λ (b : Bool).
        let answer = some (if b then authentication_error else compatibility_error) in
        ((text ≡ "authentication") × (answer ≡ some authentication_error))
        ⊎ ((text ≢ "authentication") × (answer ≡ some compatibility_error)))
      (text_eq text "authentication") (λ p. inl (p, refl)) (λ n. inr (n, refl)))

-- A client takes the WELCOME of a server with sound limits where the two have the same five limits of
-- the wire, and raises RemoteCompatibilityError where one of them differs; of a rejection it raises
-- RemoteAuthenticationError where the server's reason is "authentication", and RemoteCompatibilityError
-- for any other.
pub check_response-answer :
    (l : Limits) (e : Setup) (sid limit : ℕ) (text : String)
    → IsSound e.limits
    → let welcomed = check_response l welcome (welcome_control e e.identity sid limit) in
      let rejected = check_response l handshake_rejected (field "reason" (str text) end) in
      ((SameWireLimits l e.limits × (welcomed ≡ none))
        ⊎ ((¬ SameWireLimits l e.limits) × (welcomed ≡ some compatibility_error)))
      × (((text ≡ "authentication") × (rejected ≡ some authentication_error))
          ⊎ ((text ≢ "authentication") × (rejected ≡ some compatibility_error)))
check_response-answer l e sid limit text v =
    (welcome_answer l e sid limit v, rejection_answer l text)
