-- ===== src/Errors.antt =====
-- deadpool/remote/errors.py: the classes of failure, and what each says of a submission.
use deadpool.Base.{String, Option, none, some}

pub data AcceptanceCertainty : Type 0 where
  not_accepted accepted unknown : AcceptanceCertainty

pub data ExecutionCertainty : Type 0 where
  not_started may_have_run completed : ExecutionCertainty

pub data ErrorClass : Type 0 where
  remote_executor_error executor_unavailable authentication_error compatibility_error : ErrorClass
  queue_full submission_timeout submission_outcome_unknown queue_timeout task_error : ErrorClass
  result_encoding_error result_too_large cancellation_outcome_unknown : ErrorClass
  forked_process_error process_error cancelled_error connection_lost server_restarted : ErrorClass
  protocol_error result_lost : ErrorClass

-- `default_acceptance` and `default_execution`; a class without its own has its base class's
unfoldable pub default_acceptance : ErrorClass → AcceptanceCertainty
default_acceptance remote_executor_error = unknown
default_acceptance executor_unavailable = not_accepted
default_acceptance authentication_error = not_accepted
default_acceptance compatibility_error = not_accepted
default_acceptance queue_full = not_accepted
default_acceptance submission_timeout = not_accepted
default_acceptance submission_outcome_unknown = unknown
default_acceptance queue_timeout = accepted
default_acceptance task_error = accepted
default_acceptance result_encoding_error = accepted
default_acceptance result_too_large = accepted
default_acceptance cancellation_outcome_unknown = unknown
default_acceptance forked_process_error = unknown
default_acceptance process_error = accepted
default_acceptance cancelled_error = accepted
default_acceptance connection_lost = unknown
default_acceptance server_restarted = unknown
default_acceptance protocol_error = unknown
default_acceptance result_lost = accepted

unfoldable pub default_execution : ErrorClass → ExecutionCertainty
default_execution remote_executor_error = may_have_run
default_execution executor_unavailable = not_started
default_execution authentication_error = not_started
default_execution compatibility_error = not_started
default_execution queue_full = not_started
default_execution submission_timeout = not_started
default_execution submission_outcome_unknown = may_have_run
default_execution queue_timeout = not_started
default_execution task_error = completed
default_execution result_encoding_error = completed
default_execution result_too_large = completed
default_execution cancellation_outcome_unknown = may_have_run
default_execution forked_process_error = may_have_run
default_execution process_error = may_have_run
default_execution cancelled_error = not_started
default_execution connection_lost = may_have_run
default_execution server_restarted = may_have_run
default_execution protocol_error = may_have_run
default_execution result_lost = completed

-- `RemoteExecutorError`, without the message
pub record RemoteError : Type 0 where
  pub error_class : ErrorClass
  pub request_id : Option String
  pub acceptance_certainty : AcceptanceCertainty
  pub execution_certainty : ExecutionCertainty

abbrev or_default {ℓ} : {A : Type ℓ} → Option A → A → A
or_default none d = d
or_default (some a) d = a

-- `RemoteExecutorError.__init__`
unfoldable pub make :
    ErrorClass
    → Option String
    → Option AcceptanceCertainty
    → Option ExecutionCertainty
    → RemoteError
unfolding default_acceptance default_execution
make c request_id acceptance execution = record {
  error_class = c;
  request_id = request_id;
  acceptance_certainty = or_default acceptance (default_acceptance c);
  execution_certainty = or_default execution (default_execution c);
}

-- An error of a class with its defaults, for a request.
abbrev pub error_for : ErrorClass → String → RemoteError
error_for c request_id = make c (some request_id) none none
