-- ===== src/Client/Options/Validity.antt =====
-- The options that the checks of deadpool/remote/client.py let through.
use deadpool.Base.{
  ℕ, zero, suc, ◌<◌, ◌≡◌, ◌↔◌, refl, Bool, false, not, String, arith, ◌⊎◌, inl, inr,
}
use deadpool.Python.{ℤ, pos, negsuc, finite, infinite, nan, int, bool, float, str, none_value}
use deadpool.Result.{ok, value_error, >>-eq-ok, guard-ok}
use deadpool.Protocol.Json.{Fields}
use deadpool.Broker.State.{same}
use deadpool.Client.Options.{
  Argument, plain, dict, other, Options, optional_timeout, positive_timeout, check_group,
  check_metadata, check_priority, check_options, IsDuration, IsValid,
}

module _ (too_large : ℤ → Bool) where
  optional_timeout_iff :
      (v : Argument)
      → (optional_timeout too_large v ≡ ok tt)
        ↔ ((v ≡ plain none_value) ⊎ IsDuration too_large (λ n. Unit) v)
  unfolding optional_timeout
  optional_timeout_iff v = (passed v, valid v)
    where
      passed :
          (v : Argument)
          → optional_timeout too_large v ≡ ok tt
          → (v ≡ plain none_value) ⊎ IsDuration too_large (λ n. Unit) v
      passed (plain none_value) h = inl refl
      passed (plain (int (pos n))) h = inr (inl (n, refl, ground (arith, h), tt))
      passed (plain (int (negsuc n))) h = ground (arith, h)
      passed (plain (float (finite (pos m) k))) h = inr (inr (m, k, refl, tt))
      passed (plain (float (finite (negsuc m) k))) h = cc
      passed (plain (float (infinite b))) h = cc
      passed (plain (float nan)) h = cc
      passed (plain (bool b)) h = cc
      passed (plain (str s)) h = cc
      passed (dict fields) h = cc
      passed other h = cc

      valid :
          (v : Argument)
          → (v ≡ plain none_value) ⊎ IsDuration too_large (λ n. Unit) v
          → optional_timeout too_large v ≡ ok tt
      valid v (inl e) = rw e refl
      valid v (inr (inl (n, e, fits, _))) = rw (e, fits) refl
      valid v (inr (inr (m, k, e, _))) = rw e refl

  positive_timeout_iff :
      (v : Argument) → (positive_timeout too_large v ≡ ok tt) ↔ IsDuration too_large (λ n. 0 < n) v
  unfolding positive_timeout
  positive_timeout_iff v = (passed v, valid v)
    where
      passed :
          (v : Argument)
          → positive_timeout too_large v ≡ ok tt
          → IsDuration too_large (λ n. 0 < n) v
      passed (plain none_value) h = cc
      passed (plain (int (pos zero))) h = ground (arith, h)
      passed (plain (int (pos (suc n)))) h = inl (suc n, refl, ground (arith, h), omega arith)
      passed (plain (int (negsuc n))) h = ground (arith, h)
      passed (plain (float (finite (pos zero) k))) h = cc
      passed (plain (float (finite (pos (suc m)) k))) h = inr (suc m, k, refl, omega arith)
      passed (plain (float (finite (negsuc m) k))) h = cc
      passed (plain (float (infinite b))) h = cc
      passed (plain (float nan)) h = cc
      passed (plain (bool b)) h = cc
      passed (plain (str s)) h = cc
      passed (dict fields) h = cc
      passed other h = cc

      valid :
          (v : Argument)
          → IsDuration too_large (λ n. 0 < n) v
          → positive_timeout too_large v ≡ ok tt
      valid v (inl (zero, e, fits, lt)) = ground (arith, lt)
      valid v (inl (suc n, e, fits, lt)) = rw (e, fits) refl
      valid v (inr (zero, k, e, lt)) = ground (arith, lt)
      valid v (inr (suc m, k, e, lt)) = rw e refl

  group-ok :
      (v : Argument)
      → check_group too_large v ≡ ok tt
      → (v ≡ plain none_value) ⊎ ((s : String) × (v ≡ plain (str s)) × (same s "" ≡ false))
  group-ok (plain none_value) h = inl refl
  group-ok (plain (str s)) h =
      inr (s, refl, ground (arith, guard-ok (not (same s "")) value_error h))
  group-ok (plain (int n)) h = cc
  group-ok (plain (bool b)) h = cc
  group-ok (plain (float x)) h = cc
  group-ok (dict fields) h = cc
  group-ok other h = cc

  ok-group :
      (v : Argument)
      → (v ≡ plain none_value) ⊎ ((s : String) × (v ≡ plain (str s)) × (same s "" ≡ false))
      → check_group too_large v ≡ ok tt
  ok-group v (inl e) = rw e refl
  ok-group v (inr (s, e, nonempty)) = rw (e, nonempty) refl

  metadata-ok :
      (v : Argument) → check_metadata too_large v ≡ ok tt → (fields : Fields) × (v ≡ dict fields)
  metadata-ok (dict fields) h = (fields, refl)
  metadata-ok (plain x) h = cc
  metadata-ok other h = cc

  priority-ok :
      (v : Argument) → check_priority too_large v ≡ ok tt → (n : ℕ) × (v ≡ plain (int (pos n)))
  priority-ok (plain (int (pos n))) h = (n, refl)
  priority-ok (plain (int (negsuc n))) h = cc
  priority-ok (plain none_value) h = cc
  priority-ok (plain (str s)) h = cc
  priority-ok (plain (bool b)) h = cc
  priority-ok (plain (float x)) h = cc
  priority-ok (dict fields) h = cc
  priority-ok other h = cc

  options-ok : (o : Options) → check_options too_large o ≡ ok tt → IsValid too_large o
  unfolding check_options
  options-ok o h =
      let (execution, h1) = >>-eq-ok (optional_timeout too_large o.execution_timeout) _ h in
      let (queue, h2) = >>-eq-ok (optional_timeout too_large o.queue_timeout) _ h1 in
      let (submission, h3) = >>-eq-ok (positive_timeout too_large o.submission_timeout) _ h2 in
      let (group, h4) = >>-eq-ok (check_group too_large o.group_id) _ h3 in
      let (metadata, priority) = >>-eq-ok (check_metadata too_large o.metadata) _ h4 in
      record {
        execution = (optional_timeout_iff o.execution_timeout).0 execution;
        queue = (optional_timeout_iff o.queue_timeout).0 queue;
        submission = (positive_timeout_iff o.submission_timeout).0 submission;
        group = group-ok o.group_id group;
        metadata = metadata-ok o.metadata metadata;
        priority = priority-ok o.priority priority;
      }

  ok-options : (o : Options) → IsValid too_large o → check_options too_large o ≡ ok tt
  unfolding check_options
  ok-options o v =
      rw
        (
          (optional_timeout_iff o.execution_timeout).1 v.execution,
          (optional_timeout_iff o.queue_timeout).1 v.queue,
          (positive_timeout_iff o.submission_timeout).1 v.submission,
          ok-group o.group_id v.group,
          v.metadata.1,
          v.priority.1,
        )
        refl

  -- The checks of a submission's options pass exactly the valid ones: timeouts that are None or finite and
  -- not negative, a positive submission timeout, a group that is None or a text that is not empty,
  -- metadata that is a dict, and a priority that is an integer, no boolean, and not negative. An integer
  -- that no float can hold is no timeout.
  pub check_options_iff : (o : Options) → (check_options too_large o ≡ ok tt) ↔ IsValid too_large o
  check_options_iff o = (options-ok o, ok-options o)
