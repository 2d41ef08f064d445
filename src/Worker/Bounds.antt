-- ===== src/Worker/Bounds.antt =====
-- The bounds of what a worker of deadpool/remote/_worker.py sends back.
use deadpool.Base.{
  ℕ, ◌+◌, ◌≤◌, ◌<◌, ◌≡◌, refl, String, Option, none, some, List, [], ◌∷◌, ◌++◌, arith, length,
  length-append, append_assoc, append-nil, sym, ap, inl, inr, Option-cases,
}
use deadpool.Dict.{text_key}
use deadpool.Protocol.Reader.{join}
use deadpool.Broker.Dispatch.{returned, too_large}
use deadpool.Worker.{
  Attempt, gives, throws, Dumped, bytes, over_limit, failed, LimitedWriter, write_all, Runtime,
  dumps, run_invocation, error_outcome, result_outcome, outcome_of, execute_opaque,
}

-- Chunks fit into a writer exactly where they fit together; the buffer is then what was in it and they.
pub write_all_lem :
    (chunks : List (List ℕ)) (w : LimitedWriter)
    → (length w.buffer + length (join chunks) ≤ w.limit
        → write_all chunks w ≡ some (record w { buffer = w.buffer ++ join chunks }))
      × (length w.buffer ≤ w.limit
          → w.limit < length w.buffer + length (join chunks)
          → write_all chunks w ≡ none)
unfolding write_all
write_all_lem [] w = (
  λ h. ap (λ buffer. some (record w { buffer = buffer })) (sym (append-nil w.buffer)),
  λ h k. absurd (omega (arith, h, k)),
)
write_all_lem (chunk ∷ chunks) w =
    let w' : LimitedWriter = record w { buffer = w.buffer ++ chunk } in
    let ih = write_all_lem chunks w' in
    (
      λ h. ground (
        arith,
        h,
        ih.0,
        length-append w.buffer chunk,
        length-append chunk (join chunks),
        append_assoc w.buffer chunk (join chunks),
      ),
      λ h k.
          ground
            (arith, h, k, ih.1, length-append w.buffer chunk, length-append chunk (join chunks)),
    )

-- What a writer took is within its limit.
write_all-le :
    (chunks : List (List ℕ)) (w w' : LimitedWriter)
    → length w.buffer ≤ w.limit
    → write_all chunks w ≡ some w'
    → length w'.buffer ≤ w.limit
unfolding write_all
write_all-le [] w w' h k = ground (arith, h, k)
write_all-le (chunk ∷ chunks) w w' h k = ground (
  arith,
  h,
  k,
  length-append w.buffer chunk,
  write_all-le chunks (record w { buffer = w.buffer ++ chunk }) w',
)

module _ {V X : Type 0} (r : Runtime V X) where
  dumps-le :
      (v : V) (limit : ℕ) (payload : List ℕ)
      → dumps r v limit ≡ bytes payload
      → length payload ≤ limit
  unfolding dumps
  dumps-le v limit payload h =
      let start : LimitedWriter = record { limit = limit; buffer = [] } in
      let chunks = (r.pickle v).0 in
      elim (Option-cases (write_all chunks start)) [
        | inl e ↦ ground (arith, e, h)
        | inr (w, e) ↦ ground (arith, e, h, write_all-le chunks start w (omega arith) e)
      ]

  error_outcome-le :
      (x : X) (d : Dumped X) (limit : ℕ)
      → ((payload : List ℕ) → d ≡ bytes payload → length payload ≤ limit)
      → length (error_outcome r x d).payload ≤ limit
  unfolding error_outcome
  error_outcome-le x (bytes payload) limit h = h payload refl
  error_outcome-le x over_limit limit h = omega arith
  error_outcome-le x (failed y) limit h = omega arith

  result_outcome-le :
      (d : Dumped X) (limit : ℕ)
      → ((payload : List ℕ) → d ≡ bytes payload → length payload ≤ limit)
      → length (result_outcome r d).payload ≤ limit
  unfolding result_outcome
  result_outcome-le (bytes payload) limit h = h payload refl
  result_outcome-le over_limit limit h = omega arith
  result_outcome-le (failed y) limit h = omega arith

  outcome_of-le : (limit : ℕ) (a : Attempt V X) → length (outcome_of r limit a).payload ≤ limit
  outcome_of-le limit (gives v) = result_outcome-le (dumps r v limit) limit (dumps-le v limit)
  outcome_of-le limit (throws x) =
      error_outcome-le x (dumps r (r.exception_object x) limit) limit
        (dumps-le (r.exception_object x) limit)

  -- Whatever an invocation is and does, the payload that its worker sends back, of a result or of an
  -- exception, has at most `max_result_bytes` bytes.
  pub execute_opaque-le :
      (mode : String) (invocation : List ℕ) (operation : Option String)
      (registry : Option (List (String × V))) (limit : ℕ)
      → length (execute_opaque r mode invocation operation registry limit).payload ≤ limit
  unfolding execute_opaque
  execute_opaque-le mode invocation operation registry limit =
      outcome_of-le limit (run_invocation r mode invocation operation registry)

  -- A call that gives a value which the pickler writes in full is answered with all of its bytes where
  -- they fit, and with "result_too_large" and no bytes exactly where they do not.
  pub execute_opaque_result :
      (mode : String) (invocation : List ℕ) (operation : Option String)
      (registry : Option (List (String × V))) (limit : ℕ) (v : V) (chunks : List (List ℕ))
      → run_invocation r mode invocation operation registry ≡ gives v
      → r.pickle v ≡ (chunks, none)
      → let o = execute_opaque r mode invocation operation registry limit in
        (length (join chunks) ≤ limit → (o.kind ≡ returned) × (o.payload ≡ join chunks))
        × (limit < length (join chunks) → (o.kind ≡ too_large) × (o.payload ≡ []))
  unfolding execute_opaque dumps result_outcome
  execute_opaque_result mode invocation operation registry limit v chunks h k =
      let start : LimitedWriter = record { limit = limit; buffer = [] } in
      let (fits, exceeds) = write_all_lem chunks start in
      (
        λ le. ground (arith, h, k, fits (omega (arith, le))),
        λ lt. ground (arith, h, k, exceeds (omega arith) (omega (arith, lt))),
      )
