-- ===== src/Worker.antt =====
-- deadpool/remote/_worker.py and deadpool/remote/serializer.py: a worker's way from the bytes of an
-- invocation to the bytes of an outcome. Objects of Python are of a type `V`, exceptions of a type `X`;
-- unpickling, unpacking, calling and describing them are parameters.
use deadpool.Base.{
  ℕ, ◌+◌, Bool, true, false, String, Option, none, some, List, [], ◌∷◌, ◌++◌, if◌then◌else◌, ltb,
  length,
}
use deadpool.Dict.{Dict, lookup, text_key}
use deadpool.Protocol.Json.{Json, str, Fields, end, field}
use deadpool.Broker.Dispatch.{OutcomeKind, returned, raised, unencodable, too_large}
use deadpool.Broker.State.{same}
pub mod Bounds

-- A call of Python that gives a value or raises.
pub data Attempt (A X : Type 0) : Type 0 where
  gives : A → Attempt A X
  throws : X → Attempt A X

-- What a serializer's `dumps` gives: bytes, SerializationLimitError, or another exception.
pub data Dumped (X : Type 0) : Type 0 where
  bytes : List ℕ → Dumped X
  over_limit : Dumped X
  failed : X → Dumped X

-- descriptor[name] = value, for a name that is not in it
abbrev with_field : String → Json → Fields → Fields
with_field name value end = field name value end
with_field name value (field k v fs) = field k v (with_field name value fs)

-- `_LimitedWriter`
pub record LimitedWriter : Type 0 where
  pub limit : ℕ
  pub buffer : List ℕ

-- `_LimitedWriter.write`; `none` is SerializationLimitError
unfoldable pub write : List ℕ → LimitedWriter → Option LimitedWriter
write chunk w =
    if ltb w.limit (length w.buffer + length chunk)
    then none
    else some (record w { buffer = w.buffer ++ chunk })

-- the chunks that the pickler writes, one after the other
unfoldable pub write_all : List (List ℕ) → LimitedWriter → Option LimitedWriter
unfolding write
write_all [] w = some w
write_all (chunk ∷ chunks) w = elim (write chunk w) [ none ↦ none | some w' ↦ write_all chunks w' ]

-- What the worker uses of Python: `pickle` gives the chunks that the pickler writes of a value, and the
-- exception that it ends with, if it does.
pub record Runtime (V X : Type 0) : Type 0 where
  pub pickle : V → List (List ℕ) × Option X
  pub unpickle : List ℕ → Attempt V X
  pub unpack_call : V → Attempt (V × V × V) X
  pub unpack_arguments : V → Attempt (V × V) X
  pub call : V → V → V → Attempt V X
  pub exception_object : X → V
  pub describe : X → Fields
  pub repr : X → String
  pub limit_message : String
  pub unknown_operation : X
  pub unknown_mode : X

-- `WorkerOutcome`
pub record WorkerOutcome : Type 0 where
  pub kind : OutcomeKind
  pub payload : List ℕ
  pub descriptor : Fields

module _ {V X : Type 0} (r : Runtime V X) where
  abbrev written : Option LimitedWriter → Option X → Dumped X
  written none x = over_limit
  written (some w) none = bytes w.buffer
  written (some w) (some x) = failed x

  -- `PickleSerializer.dumps`
  unfoldable pub dumps : V → ℕ → Dumped X
  unfolding write_all
  dumps v limit =
      let (chunks, ended) = r.pickle v in
      written (write_all chunks (record { limit = limit; buffer = [] })) ended

  abbrev bind : {A B : Type 0} → Attempt A X → (A → Attempt B X) → Attempt B X
  bind (gives a) f = f a
  bind (throws x) f = throws x

  abbrev with_arguments : List ℕ → V → Attempt V X
  with_arguments invocation fn =
      bind (r.unpickle invocation)
        (λ v. bind (r.unpack_arguments v) (λ (args, kwargs). r.call fn args kwargs))

  abbrev call_registered : List ℕ → Option V → Attempt V X
  call_registered invocation none = throws r.unknown_operation
  call_registered invocation (some fn) = with_arguments invocation fn

  -- registry[operation], where there are both
  abbrev find_operation : Option String → Option (List (String × V)) → Option V
  find_operation (some operation) (some registry) = lookup operation registry
  find_operation _ _ = none

  -- the `try` of `execute_opaque`: the invocation is loaded and called
  unfoldable pub run_invocation :
      String → List ℕ → Option String → Option (List (String × V)) → Attempt V X
  run_invocation mode invocation operation registry =
      if same mode "callable"
      then bind (r.unpickle invocation)
          (λ v. bind (r.unpack_call v) (λ (fn, args, kwargs). r.call fn args kwargs))
      else if same mode "registered"
      then call_registered invocation (find_operation operation registry)
      else throws r.unknown_mode

  -- the payload and the descriptor of an exception of the task
  unfoldable pub error_outcome : X → Dumped X → WorkerOutcome
  error_outcome x (bytes payload) = record {
    kind = raised;
    payload = payload;
    descriptor = r.describe x;
  }
  error_outcome x over_limit = record {
    kind = raised;
    payload = [];
    descriptor = with_field "serialization_error" (str r.limit_message) (r.describe x);
  }
  error_outcome x (failed y) = record {
    kind = raised;
    payload = [];
    descriptor = with_field "serialization_error" (str (r.repr y)) (r.describe x);
  }

  unfoldable pub result_outcome : Dumped X → WorkerOutcome
  result_outcome (bytes payload) = record { kind = returned; payload = payload; descriptor = end }
  result_outcome over_limit = record {
    kind = too_large;
    payload = [];
    descriptor = field "message" (str r.limit_message) end;
  }
  result_outcome (failed x) = record { kind = unencodable; payload = []; descriptor = r.describe x }

  abbrev pub outcome_of : ℕ → Attempt V X → WorkerOutcome
  outcome_of limit (throws x) = error_outcome x (dumps (r.exception_object x) limit)
  outcome_of limit (gives v) = result_outcome (dumps v limit)

  -- `execute_opaque`
  unfoldable pub execute_opaque :
      String → List ℕ → Option String → Option (List (String × V)) → ℕ → WorkerOutcome
  unfolding dumps run_invocation error_outcome result_outcome
  execute_opaque mode invocation operation registry limit =
      outcome_of limit (run_invocation mode invocation operation registry)
