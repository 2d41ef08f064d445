-- ===== src/Client/Honesty.antt =====
-- What the client of deadpool/remote/client.py says of a lost submission: one that is reported as not
-- accepted was never sent.
pub mod Methods
pub mod Steps
pub mod Sending
pub mod Runs
use deadpool.Base.{
  ℕ, suc, ◌+◌, ◌≤◌, ◌<◌, ◌≡◌, ◌≢◌, refl, Bool, true, false, not, String, Option, none, some, List,
  [], ◌∷◌, ◌++◌, arith, if◌then◌else◌, ◌==◌, ◌||◌, ◌&&◌, any, if-case, option-case, is_some, ap,
}
use deadpool.Dict.{Dict, lookup, insert, nat_key, text_key}
use deadpool.Dict.Laws.{lookup-insert}
use deadpool.Collections.{is_empty}
use deadpool.Protocol.Reader.{Message}
use deadpool.Protocol.Json.{Fields}
use deadpool.Errors.{RemoteError, ErrorClass, executor_unavailable}
use deadpool.Future.{RemoteFuture, Settlement, returned, raised, given_up, is_local}
use deadpool.Client.State.{
  Setup, Client, RequestFuture, Failure, remote, timed_out, application, Task, accepts, runs,
  completes, rejects, fails, Sender, idle, marked, ready, stopped, settling, on_future,
}

-- RemoteExecutorUnavailable, which says that the request was not accepted and has not run.
unfoldable pub is_unavailable : ErrorClass → Bool
is_unavailable executor_unavailable = true
is_unavailable _ = false

-- The completion lane is about to end it so.
unfoldable pub is_refusing : ℕ → List Task → Bool
is_refusing ref [] = false
is_refusing ref (fails r x ∷ ts) = (r == ref && is_unavailable x.error_class) || is_refusing ref ts
is_refusing ref (_ ∷ ts) = is_refusing ref ts

abbrev pub is_for : ℕ → Option ℕ × Message → Bool
is_for ref (none, m) = false
is_for ref (some r, m) = r == ref

-- The sender holds the request's message with the socket in hand.
abbrev pub has_ready : ℕ → Sender → Bool
has_ready ref (ready r m) = is_for ref (r, m)
has_ready ref _ = false

abbrev pub has_marked : ℕ → Sender → Bool
has_marked ref (marked r m) = is_for ref (r, m)
has_marked ref _ = false

abbrev pub is_queued_for : ℕ → Option (Option ℕ × Message) → Bool
is_queued_for ref none = false
is_queued_for ref (some item) = is_for ref item

module _ {V : Type 0} where
  -- The future has ended with that error.
  abbrev pub is_refused : Option (RequestFuture V) → Bool
  is_refused none = false
  is_refused (some f) = elim f.settlement [
    | some (raised (remote x)) ↦ is_unavailable x.error_class
    | _ ↦ false
  ]

  abbrev pub is_pending : Option (RequestFuture V) → Bool
  is_pending none = false
  is_pending (some f) = is_local f.submission_state

  -- The client ended a request's future as not accepted, or is about to.
  abbrev pub is_reported : ℕ → Client V → Bool
  is_reported ref c = is_refused (lookup ref c.table) || is_refusing ref c.lane

  -- A request's message went out, or is about to.
  abbrev pub is_sent : ℕ → Client V → Bool
  is_sent ref c = has_ready ref c.sender || any (is_for ref) c.sent

  abbrev is_touched : ℕ → Client V → Bool
  is_touched ref c = has_marked ref c.sender || is_sent ref c

  pub record IsHonest (c : Client V) : Type 0 where
    pub lost : is_empty c.failing ≡ false → c.connected ≡ false
    pub new_ref : (ref : ℕ) → c.sequence < ref → lookup ref c.table ≡ none
    pub new_touched : (ref : ℕ) → c.sequence < ref → is_touched ref c ≡ false
    pub new_queued : (ref : ℕ) → c.sequence < ref → any (is_queued_for ref) c.outbound ≡ false
    pub started : (ref : ℕ) → is_touched ref c ≡ true → is_pending (lookup ref c.table) ≡ false
    pub honest :
        (ref : ℕ) → is_reported ref c ≡ true → (c.connected ≡ false) × (is_sent ref c ≡ false)

  -- The fields of which honesty speaks, and that they are the same.
  abbrev pub core :
      Client V
      → List (ℕ × RequestFuture V)
        × List Task
        × Sender
        × List (Option ℕ × Message)
        × List ℕ
        × Bool
        × ℕ
        × List (Option (Option ℕ × Message))
  core c = (c.table, c.lane, c.sender, c.sent, c.failing, c.connected, c.sequence, c.outbound)

  abbrev pub Same : Client V → Client V → Type 0
  Same c c' = core c' ≡ core c

  pub Same-IsHonest : (c c' : Client V) → Same c c' → IsHonest c → IsHonest c'
  Same-IsHonest c c' s v =
      let table = ap (λ x. x.0) s in
      let lane = ap (λ x. x.1) s in
      let sender = ap (λ x. x.2) s in
      let sent = ap (λ x. x.3) s in
      let failing = ap (λ x. x.4) s in
      let connected = ap (λ x. x.5) s in
      let sequence = ap (λ x. x.6) s in
      let outbound = ap (λ x. x.7) s in
      record {
        lost = ground (arith, v.lost, failing, connected);
        new_ref = λ ref. rw (table, sequence) (v.new_ref ref);
        new_touched = λ ref. rw (sequence, sender, sent) (v.new_touched ref);
        new_queued = λ ref. rw (sequence, outbound) (v.new_queued ref);
        started = λ ref. rw (table, sender, sent) (v.started ref);
        honest = λ ref. rw (table, lane, connected, sender, sent) (v.honest ref);
      }

  -- What a method does with a future that it ends or moves on.
  pub record Fair (ref : ℕ) (c : Client V) (f f' : RequestFuture V) : Type 0 where
    pub pending : is_local f'.submission_state ≡ true → is_local f.submission_state ≡ true
    pub refused :
        is_refused (some f') ≡ true
        → is_refused (some f) ≡ false
        → (c.connected ≡ false) × (is_sent ref c ≡ false)

  pub put-IsHonest :
      (ref : ℕ) (f f' : RequestFuture V) (c c' : Client V)
      → lookup ref c.table ≡ some f
      → Fair ref c f f'
      → Same (record c { table = insert ref f' c.table }) c'
      → IsHonest c
      → IsHonest c'
  put-IsHonest ref f f' c c' e fair s v =
      Same-IsHonest (record c { table = insert ref f' c.table }) c' s
        (record {
          lost = v.lost;
          new_ref = λ r h. ground (arith, e, v.new_ref r, lookup-insert ref r f' c.table);
          new_touched = v.new_touched;
          new_queued = v.new_queued;
          started =
              λ r h. ground (arith, e, v.started r, fair.pending, lookup-insert ref r f' c.table);
          honest = λ r h.
              ground
                (arith, e, v.honest r, v.honest ref, fair.refused, lookup-insert ref r f' c.table);
        })

  pub settling-IsHonest :
      (ref : ℕ) (g : RequestFuture V → List ℕ × RequestFuture V) (c : Client V)
      → ((f : RequestFuture V) → lookup ref c.table ≡ some f → Fair ref c f (g f).1)
      → IsHonest c
      → IsHonest (settling ref g c)
  unfolding settling
  settling-IsHonest ref g c fair v =
      option-case IsHonest (lookup ref c.table) (λ _. v)
        (λ f e. put-IsHonest ref f (g f).1 c _ e (fair f e) refl v)

  pub on_future-IsHonest :
      (ref : ℕ) (g : RequestFuture V → RequestFuture V) (c : Client V)
      → ((f : RequestFuture V) → lookup ref c.table ≡ some f → Fair ref c f (g f))
      → IsHonest c
      → IsHonest (on_future ref g c)
  unfolding on_future
  on_future-IsHonest ref g c fair v =
      option-case IsHonest (lookup ref c.table) (λ _. v)
        (λ f e. put-IsHonest ref f (g f) c _ e (fair f e) refl v)
