-- ===== src/Future/Lifecycle.antt =====
-- The life of a future of deadpool/remote/_future.py: it settles once, and calls each callback once.
use deadpool.Base.{
  ℕ, ◌+◌, ◌≡◌, refl, Bool, true, Option, none, some, List, [], ◌∷◌, ◌++◌, ◌⊎◌, inl, arith, String,
  ap,
}
use deadpool.Dict.{nat_key}
use deadpool.Collections.{count}
use deadpool.Collections.Laws.{count-append}
use deadpool.Protocol.Json.{Json}
use deadpool.Future.{
  SubmissionState, local_pending, sent_unacknowledged, accepted_queued, running, succeeded,
  task_failed, cancelled, failed, Settlement, returned, raised, given_up, RemoteFuture, new,
  is_done, set_sent, set_accepted, set_running, set_result, set_exception, set_cancelled,
  add_done_callback, cancel,
}

-- The calls that change a future, by the client's threads and by the application.
pub data Call (V E : Type 0) : Type 0 where
  sends accepts : Call V E
  runs : Option Json → Option Json → Call V E
  returns : V → Call V E
  raises : E → Bool → Call V E
  cancels gives_up : Call V E
  adds : ℕ → Call V E

module _ {V E : Type 0} where
  -- A call: the callbacks that it invokes or hands out, and the future after it. `cancels` is the
  -- application's `cancel`, `gives_up` the client's `_set_cancelled`.
  unfoldable pub call : Call V E → RemoteFuture V E → List ℕ × RemoteFuture V E
  unfolding set_sent set_accepted set_running set_result set_exception set_cancelled
      add_done_callback cancel
  call sends f = ([], (set_sent f).1)
  call accepts f = ([], set_accepted f)
  call (runs pid worker_id) f = ([], set_running pid worker_id f)
  call (returns v) f = set_result v f
  call (raises e task) f = set_exception e task f
  call cancels f = let (_, called, f') = cancel f in (called, f')
  call gives_up f = set_cancelled f
  call (adds fn) f = add_done_callback fn f

  unfoldable pub call_all : List (Call V E) → RemoteFuture V E → List ℕ × RemoteFuture V E
  unfolding call
  call_all [] f = ([], f)
  call_all (c ∷ cs) f =
      let (called, f') = call c f in let (later, f'') = call_all cs f' in (called ++ later, f'')

  -- How often a callback was registered.
  abbrev pub registered : ℕ → List (Call V E) → ℕ
  registered fn [] = 0
  registered fn (adds fn' ∷ cs) = count fn (fn' ∷ []) + registered fn cs
  registered fn (_ ∷ cs) = registered fn cs

  -- The state that goes with a settlement.
  abbrev pub Agrees : Option (Settlement V E) → SubmissionState → Type 0
  Agrees none s =
      (s ≡ local_pending) ⊎ (s ≡ sent_unacknowledged) ⊎ (s ≡ accepted_queued) ⊎ (s ≡ running)
  Agrees (some (returned v)) s = s ≡ succeeded
  Agrees (some (raised e)) s = (s ≡ task_failed) ⊎ (s ≡ failed)
  Agrees (some given_up) s = s ≡ cancelled

  -- A settled future has handed out its callbacks, and its state is that of its settlement.
  pub record IsConsistent (f : RemoteFuture V E) : Type 0 where
    pub agrees : Agrees f.settlement f.submission_state
    pub quiet : is_done f ≡ true → f.remote_callbacks ≡ []

  call-IsConsistent :
      (c : Call V E) (f : RemoteFuture V E) → IsConsistent f → IsConsistent (call c f).1
  unfolding call
  call-IsConsistent c f v = record { agrees = agrees c f v; quiet = quiet c f v }
    where
      agrees :
          (c : Call V E) (f : RemoteFuture V E)
          → IsConsistent f
          → Agrees ((call c f).1).settlement ((call c f).1).submission_state
      agrees sends f v = ground (arith, v.agrees)
      agrees accepts f v = ground (arith, v.agrees)
      agrees (runs pid w) f v = ground (arith, v.agrees)
      agrees (returns x) f v = ground (arith, v.agrees)
      agrees (raises x task) f v = ground (arith, v.agrees)
      agrees cancels f v = ground (arith, v.agrees)
      agrees gives_up f v = ground (arith, v.agrees)
      agrees (adds fn) f v = ground (arith, v.agrees)

      quiet :
          (c : Call V E) (f : RemoteFuture V E)
          → IsConsistent f
          → is_done (call c f).1 ≡ true
          → ((call c f).1).remote_callbacks ≡ []
      quiet sends f v = ground (arith, v.quiet)
      quiet accepts f v = ground (arith, v.quiet)
      quiet (runs pid w) f v = ground (arith, v.quiet)
      quiet (returns x) f v = ground (arith, v.quiet)
      quiet (raises x task) f v = ground (arith, v.quiet)
      quiet cancels f v = ground (arith, v.quiet)
      quiet gives_up f v = ground (arith, v.quiet)
      quiet (adds fn) f v = ground (arith, v.quiet)

  call-count :
      (fn : ℕ) (c : Call V E) (f : RemoteFuture V E)
      → count fn (call c f).0 + count fn ((call c f).1).remote_callbacks
        ≡ registered fn (c ∷ []) + count fn f.remote_callbacks
  unfolding call count
  call-count fn sends f = ground (arith, count-append fn f.remote_callbacks [])
  call-count fn accepts f = ground (arith, count-append fn f.remote_callbacks [])
  call-count fn (runs pid w) f = ground (arith, count-append fn f.remote_callbacks [])
  call-count fn (returns x) f = ground (arith, count-append fn f.remote_callbacks [])
  call-count fn (raises x task) f = ground (arith, count-append fn f.remote_callbacks [])
  call-count fn cancels f = ground (arith, count-append fn f.remote_callbacks [])
  call-count fn gives_up f = ground (arith, count-append fn f.remote_callbacks [])
  call-count fn (adds fn') f = ground (arith, count-append fn f.remote_callbacks (fn' ∷ []))

  call_all-IsConsistent :
      (cs : List (Call V E)) (f : RemoteFuture V E)
      → IsConsistent f
      → IsConsistent (call_all cs f).1
  unfolding call_all
  call_all-IsConsistent [] f v = v
  call_all-IsConsistent (c ∷ cs) f v =
      call_all-IsConsistent cs (call c f).1 (call-IsConsistent c f v)

  registered-cons :
      (fn : ℕ) (c : Call V E) (cs : List (Call V E))
      → registered fn (c ∷ cs) ≡ registered fn (c ∷ []) + registered fn cs
  registered-cons fn sends cs = omega arith
  registered-cons fn accepts cs = omega arith
  registered-cons fn (runs pid w) cs = omega arith
  registered-cons fn (returns x) cs = omega arith
  registered-cons fn (raises x task) cs = omega arith
  registered-cons fn cancels cs = omega arith
  registered-cons fn gives_up cs = omega arith
  registered-cons fn (adds fn') cs = omega arith

  call_all-count :
      (fn : ℕ) (cs : List (Call V E)) (f : RemoteFuture V E)
      → count fn (call_all cs f).0 + count fn ((call_all cs f).1).remote_callbacks
        ≡ registered fn cs + count fn f.remote_callbacks
  unfolding call_all count
  call_all-count fn [] f = ground arith
  call_all-count fn (c ∷ cs) f = omega (
    arith,
    call-count fn c f,
    call_all-count fn cs (call c f).1,
    registered-cons fn c cs,
    count-append fn (call c f).0 (call_all cs (call c f).1).0,
  )

  new-IsConsistent : (request_id : String) (pid : ℕ) → IsConsistent (new request_id pid)
  unfolding new
  new-IsConsistent request_id pid = record { agrees = inl refl; quiet = λ _. refl }

  -- Whatever is called on a new future, in whatever order: its state is that of its settlement, a
  -- callback is never called more often than it was registered, and once the future is settled every
  -- callback has been called exactly as often as it was registered.
  pub call_all-callbacks :
      (cs : List (Call V E)) (request_id : String) (pid fn : ℕ)
      → let (called, f) = call_all cs (new request_id pid) in
        Agrees f.settlement f.submission_state
        × (count fn called + count fn f.remote_callbacks ≡ registered fn cs)
        × (is_done f ≡ true → count fn called ≡ registered fn cs)
  unfolding new count
  call_all-callbacks cs request_id pid fn =
      let v = call_all-IsConsistent cs (new request_id pid) (new-IsConsistent request_id pid) in
      let e = call_all-count fn cs (new request_id pid) in
      (v.agrees, omega (arith, e), λ h. omega (arith, e, ap (count fn) (v.quiet h)))

  call-settled : (c : Call V E) (f : RemoteFuture V E) → is_done f ≡ true → ((call c f).1 ≡ f)
  unfolding call
  call-settled sends f h = ground (arith, h)
  call-settled accepts f h = ground (arith, h)
  call-settled (runs pid w) f h = ground (arith, h)
  call-settled (returns x) f h = ground (arith, h)
  call-settled (raises x task) f h = ground (arith, h)
  call-settled cancels f h = ground (arith, h)
  call-settled gives_up f h = ground (arith, h)
  call-settled (adds fn') f h = ground (arith, h)

  -- A settled future does not change any more, whatever is called on it.
  pub call_all-settled :
      (cs : List (Call V E)) (f : RemoteFuture V E) → is_done f ≡ true → (call_all cs f).1 ≡ f
  unfolding call_all
  call_all-settled [] f h = refl
  call_all-settled (c ∷ cs) f h = rw (call-settled c f h) (call_all-settled cs f h)
