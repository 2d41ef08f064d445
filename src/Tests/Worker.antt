-- ===== src/Tests/Worker.antt =====
-- deadpool/remote/_worker.py at concrete inputs: objects are numbers, and the pickler writes a number
-- in two chunks.
use deadpool.Base.{ℕ, ◌≤◌, ◌<◌, ◌≡◌, refl, none, List, [], ◌∷◌, length}
use deadpool.Protocol.Json.{end}
use deadpool.Broker.Dispatch.{returned, too_large}
use deadpool.Worker.{Runtime, gives, execute_opaque, run_invocation}
use deadpool.Worker.Bounds.{execute_opaque-le, execute_opaque_result}
use deadpool.Protocol.Reader.{join}

abbrev runtime : Runtime ℕ ℕ
runtime = record {
  pickle = λ v. ((1 ∷ 2 ∷ []) ∷ (v ∷ []) ∷ [], none);
  unpickle = λ bytes. gives (length bytes);
  unpack_call = λ v. gives (v, v, v);
  unpack_arguments = λ v. gives (v, v);
  call = λ fn args kwargs. gives fn;
  exception_object = λ x. x;
  describe = λ x. end;
  repr = λ x. "error";
  limit_message = "too large";
  unknown_operation = 0;
  unknown_mode = 1;
}

execute_opaque-le_example :
    length (execute_opaque runtime "callable" (5 ∷ 6 ∷ []) none none 2).payload ≤ 2
execute_opaque-le_example = execute_opaque-le runtime "callable" (5 ∷ 6 ∷ []) none none 2

called : run_invocation runtime "callable" (5 ∷ 6 ∷ []) none none ≡ gives 2
unfolding run_invocation deadpool.Dict.text_eq
called = refl

execute_opaque_result_example :
    let chunks : List (List ℕ) = (1 ∷ 2 ∷ []) ∷ (2 ∷ []) ∷ [] in
    let o = execute_opaque runtime "callable" (5 ∷ 6 ∷ []) none none 3 in
    (length (join chunks) ≤ 3 → (o.kind ≡ returned) × (o.payload ≡ join chunks))
    × (3 < length (join chunks) → (o.kind ≡ too_large) × (o.payload ≡ []))
execute_opaque_result_example =
    execute_opaque_result runtime "callable" (5 ∷ 6 ∷ []) none none 3 2
      ((1 ∷ 2 ∷ []) ∷ (2 ∷ []) ∷ []) called refl
