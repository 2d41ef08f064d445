-- ===== src/Client/Honesty/Methods.antt =====
-- What the methods of a future do to honesty: only an exception that says so makes a request refused.
use deadpool.Base.{ℕ, ◌≡◌, refl, Bool, true, false, Option, List, arith, if-case}
use deadpool.Dict.{nat_key}
use deadpool.Protocol.Json.{Json, Fields}
use deadpool.Protocol.Frame.{MessageType, result, task_error}
use deadpool.Protocol.Reader.{Message}
use deadpool.Errors.{RemoteError, make}
use deadpool.Future.{
  set_sent, set_accepted, set_running, set_result, set_exception, set_cancelled, add_done_callback,
  cancel,
}
use deadpool.Client.State.{
  Setup, Client, RequestFuture, Failure, remote, timed_out, application, Loaded, loaded, raises,
  raises_remote,
}
use deadpool.Client.Completion.{completion, complete_result, complete_error, rejection}
use deadpool.Client.Honesty.{is_unavailable, is_sent, Fair}

-- An exception on a future that says that its request was not accepted.
abbrev pub says_unavailable : {V : Type 0} → Failure V → Bool
says_unavailable (remote x) = is_unavailable x.error_class
says_unavailable (timed_out t) = false
says_unavailable (application v) = false

-- The serializer raises no RemoteExecutorUnavailable of its own.
abbrev pub LoadsFairly : {V : Type 0} → Setup V → Type 0
LoadsFairly e =
    (payload : List ℕ) (x : RemoteError)
    → e.loads payload ≡ raises_remote x
    → is_unavailable x.error_class ≡ false

module _ {V : Type 0} (ref : ℕ) (c : Client V) (f : RequestFuture V) where
  pub same-Fair : Fair ref c f f
  same-Fair = record { pending = λ h. h; refused = λ h k. ground (arith, h, k) }

  pub set_accepted-Fair : Fair ref c f (set_accepted f)
  unfolding set_accepted
  set_accepted-Fair = record {
    pending = λ h. ground (arith, h);
    refused = λ h k. ground (arith, h, k);
  }

  pub set_running-Fair : (pid worker_id : Option Json) → Fair ref c f (set_running pid worker_id f)
  unfolding set_running
  set_running-Fair pid worker_id = record {
    pending = λ h. ground (arith, h);
    refused = λ h k. ground (arith, h, k);
  }

  pub set_sent-Fair : Fair ref c f (set_sent f).1
  unfolding set_sent
  set_sent-Fair = record { pending = λ h. ground (arith, h); refused = λ h k. ground (arith, h, k) }

  pub add_done_callback-Fair : (fn : ℕ) → Fair ref c f (add_done_callback fn f).1
  unfolding add_done_callback
  add_done_callback-Fair fn = record {
    pending = λ h. ground (arith, h);
    refused = λ h k. ground (arith, h, k);
  }

  pub set_cancelled-Fair : Fair ref c f (set_cancelled f).1
  unfolding set_cancelled
  set_cancelled-Fair = record {
    pending = λ h. ground (arith, h);
    refused = λ h k. ground (arith, h, k);
  }

  pub cancel-Fair : Fair ref c f (cancel f).2
  unfolding cancel
  cancel-Fair = record { pending = λ h. ground (arith, h); refused = λ h k. ground (arith, h, k) }

  pub set_result-Fair : (v : V) → Fair ref c f (set_result v f).1
  unfolding set_result
  set_result-Fair v = record {
    pending = λ h. ground (arith, h);
    refused = λ h k. ground (arith, h, k);
  }

  pub set_exception-Fair :
      (x : Failure V) (task : Bool)
      → (says_unavailable x ≡ true → (c.connected ≡ false) × (is_sent ref c ≡ false))
      → Fair ref c f (set_exception x task f).1
  unfolding set_exception
  set_exception-Fair (remote x) task allowed = record {
    pending = λ h. ground (arith, h);
    refused = λ h k. ground (arith, h, k, allowed);
  }
  set_exception-Fair (timed_out x) task allowed = record {
    pending = λ h. ground (arith, h);
    refused = λ h k. ground (arith, h, k);
  }
  set_exception-Fair (application x) task allowed = record {
    pending = λ h. ground (arith, h);
    refused = λ h k. ground (arith, h, k);
  }

  -- An exception of another class.
  pub other-Fair :
      (x : Failure V) (task : Bool)
      → says_unavailable x ≡ false
      → Fair ref c f (set_exception x task f).1
  other-Fair x task h = set_exception-Fair x task (λ k. ground (arith, h, k))

  complete_result-Fair :
      (answer : Loaded V)
      → ((x : RemoteError) → answer ≡ raises_remote x → is_unavailable x.error_class ≡ false)
      → Fair ref c f (complete_result answer f).1
  unfolding complete_result make is_unavailable
  complete_result-Fair (loaded v) fair = set_result-Fair v
  complete_result-Fair raises fair = other-Fair _ false refl
  complete_result-Fair (raises_remote x) fair = other-Fair (remote x) false (fair x refl)

  complete_error-Fair :
      (e : Setup V) (is_empty : Bool) (answer : Loaded V)
      → Fair ref c f (complete_error e is_empty answer f).1
  unfolding complete_error make is_unavailable
  complete_error-Fair e false (loaded v) =
      if-case (λ (r : List ℕ × RequestFuture V). Fair ref c f r.1) (e.is_exception v)
        (λ _. other-Fair (application v) true refl) (λ _. other-Fair _ true refl)
  complete_error-Fair e true (loaded v) = other-Fair _ true refl
  complete_error-Fair e true raises = other-Fair _ true refl
  complete_error-Fair e false raises = other-Fair _ true refl
  complete_error-Fair e true (raises_remote x) = other-Fair _ true refl
  complete_error-Fair e false (raises_remote x) = other-Fair _ true refl

  pub completion-Fair :
      (e : Setup V) (kind : MessageType) (m : Message)
      → LoadsFairly e
      → Fair ref c f (completion e kind m f).1
  unfolding completion make is_unavailable
  completion-Fair e result m fair = complete_result-Fair (e.loads m.payload) (fair m.payload)
  completion-Fair e task_error m fair = complete_error-Fair e _ (e.loads m.payload)
  completion-Fair e MessageType.timed_out m fair = other-Fair _ false refl
  completion-Fair e MessageType.cancelled m fair = set_cancelled-Fair
  completion-Fair e MessageType.queue_timed_out m fair = other-Fair _ false refl
  completion-Fair e MessageType.worker_lost m fair = other-Fair _ false refl
  completion-Fair e MessageType.result_encoding_failed m fair = other-Fair _ false refl
  completion-Fair e MessageType.result_too_large m fair = other-Fair _ false refl
  completion-Fair e _ m fair = same-Fair

  pub rejection-Fair :
      (control : Fields)
      → Fair ref c f (set_exception (remote (rejection control f.request_id)) false f).1
  unfolding rejection make is_unavailable
  rejection-Fair control = other-Fair _ false (ground arith)
