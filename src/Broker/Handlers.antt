-- ===== src/Broker/Handlers.antt =====
-- The handlers of deadpool/remote/server.py as sequences of steps: cancellation, expiry, removal.
use deadpool.Base.{
  ℕ, ◌≡◌, refl, Bool, true, false, String, some, List, [], ◌∷◌, inl, inr, arith, if-case,
  option-case,
}
use deadpool.Dict.{lookup, values, nat_key, text_key}
use deadpool.Dict.Laws.{lookup-insert_self}
use deadpool.Protocol.Frame.{MessageType}
use deadpool.Protocol.Json.{Fields}
use deadpool.Collections.{is_empty}
use deadpool.Broker.State.{Broker, Request, Session, Setup, RequestState, is_terminal, send_to}
use deadpool.Broker.Requests.{
  terminal_locked, release_reservation, forget_request, remove_request, remove_terminal,
  drop_session, purge_session, clear_payloads, forget_in_session, forget_globally,
}
use deadpool.Broker.Step.{Steps, frame, rewrite, update, release, done, one, ◌⨟◌, SameTotals}
use deadpool.Broker.Cancel.{is_queued}

absurd-bool {ℓ} : {A : Type ℓ} {b : Bool} → b ≡ false → b ≡ true → A
absurd-bool h t = ground arith

-- `send_to` changes connections alone.
abbrev pub SameRest : Broker → Broker → Type 0
SameRest b b' = (b'.records ≡ b.records) × (b'.sessions ≡ b.sessions) × (SameTotals b b')

pub send_to-rest :
    (e : Setup) (n : ℕ) (kind : MessageType) (control : Fields) (payload : List ℕ) (b : Broker)
    → SameRest b (send_to e n kind control payload b)
unfolding send_to
send_to-rest e n kind control payload b =
    option-case (SameRest b) (lookup n b.connections) (λ _. (refl, refl, (refl, refl)))
      (λ c _. (refl, refl, (refl, refl)))

-- A message behind a sequence of steps.
pub then_send :
    (e : Setup) (n : ℕ) (kind : MessageType) (control : Fields) (payload : List ℕ) {b c : Broker}
    → Steps e b c
    → Steps e b (send_to e n kind control payload c)
then_send e n kind control payload {b} {c} p =
    let h = send_to-rest e n kind control payload c in p ⨟ one (frame h.0 h.1 h.2)

-- A change of nothing but the rest behind a sequence of steps.
pub then_frame : (e : Setup) {b c d : Broker} → Steps e b c → SameRest c d → Steps e b d
then_frame e p h = p ⨟ one (frame h.0 h.1 h.2)

pub terminal_locked-Steps :
    (e : Setup) (ref : ℕ) (state : RequestState) (kind : MessageType) (control : Fields)
    (payload : List ℕ) (b : Broker)
    → is_terminal state ≡ true
    → is_queued state ≡ false
    → Steps e b (terminal_locked e ref state kind control payload b)
unfolding terminal_locked
terminal_locked-Steps e ref state kind control payload b h q =
    option-case (Steps e b) (lookup ref b.records) (λ _. done)
      (λ r eq.
        if-case (Steps e b) (is_terminal r.state) (λ _. done)
          (λ live. then_send e _ _ _ _ (
            one (
              rewrite ref r _ eq
                (record {
                  session_id = refl;
                  reserved = refl;
                  released = refl;
                  advances = inr (live, q);
                  outcome = λ t. absurd-bool live t;
                })
                refl refl (refl, refl)))))

release_reservation-Steps :
    (e : Setup) (sid ref : ℕ) (s : Session) (r : Request) (b : Broker)
    → lookup sid b.sessions ≡ some s
    → lookup ref b.records ≡ some r
    → r.session_id ≡ sid
    → Steps e b (release_reservation sid s ref r b)
unfolding release_reservation
release_reservation-Steps e sid ref s r b hs hr same =
    if-case (Steps e b) r.reservation_released (λ _. done)
      (λ live. one (
        release sid ref s _ r _ hs hr
          (record {
            session_id = same;
            held = live;
            freed = refl;
            count = refl;
            bytes = refl;
            watermark = refl;
            stays = (refl, λ h. h);
            total_count = refl;
            total_bytes = refl;
          })
          refl refl))

-- The record's reservation was given up.
abbrev IsReleased : ℕ → Broker → Type 0
IsReleased ref b = (r : Request) → lookup ref b.records ≡ some r → r.reservation_released ≡ true

release_reservation-IsReleased :
    (sid ref : ℕ) (s : Session) (r : Request) (b : Broker)
    → lookup ref b.records ≡ some r
    → IsReleased ref (release_reservation sid s ref r b)
unfolding release_reservation
release_reservation-IsReleased sid ref s r b h r' h' =
    let self = lookup-insert_self ref (record r { reservation_released = true }) b.records in
    ground (arith, h, h', self)

clear_payloads-Steps :
    (e : Setup) (ref : ℕ) (b : Broker) → IsReleased ref b → Steps e b (clear_payloads ref b)
unfolding clear_payloads
clear_payloads-Steps e ref b h =
    option-case (Steps e b) (lookup ref b.records) (λ _. done)
      (λ r eq. one (
        rewrite ref r _ eq
          (record {
            session_id = refl;
            reserved = refl;
            released = refl;
            advances = inl refl;
            outcome = λ _. (refl, refl, inr (refl, h r eq));
          })
          refl refl (refl, refl)))

forget_in_session-Steps :
    (e : Setup) (sid : ℕ) (request_id : String) (b : Broker)
    → Steps e b (forget_in_session sid request_id b)
unfolding forget_in_session
forget_in_session-Steps e sid request_id b =
    option-case (Steps e b) (lookup sid b.sessions) (λ _. done)
      (λ s eq.
        one (update sid s _ eq (refl, refl, omega arith, (refl, λ h. h)) refl refl (refl, refl)))

forget_request-Steps :
    (e : Setup) (sid ref : ℕ) (r : Request) (b : Broker)
    → IsReleased ref b
    → Steps e b (forget_request sid ref r b)
unfolding forget_request forget_globally
forget_request-Steps e sid ref r b h =
    then_frame e
      (clear_payloads-Steps e ref b h
        ⨟ forget_in_session-Steps e sid r.request_id (clear_payloads ref b))
      (refl, refl, (refl, refl))

pub remove_request-Steps : (e : Setup) (ref : ℕ) (b : Broker) → Steps e b (remove_request ref b)
unfolding remove_request
remove_request-Steps e ref b =
    option-case (Steps e b) (lookup ref b.records) (λ _. done)
      (λ r hr.
        option-case (Steps e b) (lookup r.session_id b.sessions) (λ _. done)
          (λ s hs.
            if-case (Steps e b) s.registered_session
              (λ _.
                release_reservation-Steps e r.session_id ref s r b hs hr refl
                ⨟ forget_request-Steps e r.session_id ref r
                    (release_reservation r.session_id s ref r b)
                    (release_reservation-IsReleased r.session_id ref s r b hr))
              (λ _. done)))

remove_terminal-Steps :
    (e : Setup) (refs : List ℕ) (b : Broker) → Steps e b (remove_terminal refs b)
unfolding remove_terminal
remove_terminal-Steps e [] b = done
remove_terminal-Steps e (ref ∷ refs) b =
    option-case (Steps e b) (lookup ref b.records) (λ _. done)
      (λ r _.
        if-case (Steps e b) (is_terminal r.state) (λ _. remove_request-Steps e ref b) (λ _. done))
    ⨟ remove_terminal-Steps e refs _

drop_session-Steps : (e : Setup) (sid : ℕ) (b : Broker) → Steps e b (drop_session sid b)
unfolding drop_session
drop_session-Steps e sid b =
    option-case (Steps e b) (lookup sid b.sessions) (λ _. done)
      (λ s eq.
        if-case (Steps e b) (is_empty s.requests)
          (λ _. one (
            update sid s _ eq (refl, refl, omega arith, (refl, λ h. ground (arith, h))) refl refl
              (refl, refl)))
          (λ _. done))

pub purge_session-Steps : (e : Setup) (sid : ℕ) (b : Broker) → Steps e b (purge_session sid b)
unfolding purge_session
purge_session-Steps e sid b =
    option-case (Steps e b) (lookup sid b.sessions) (λ _. done)
      (λ s _.
        remove_terminal-Steps e (values s.requests) b
        ⨟ drop_session-Steps e sid (remove_terminal (values s.requests) b))
