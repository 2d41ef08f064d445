-- ===== src/Client/Options.antt =====
-- The checks of a submission's options in deadpool/remote/client.py: `_submission_options`,
-- `_positive_timeout` and the priority in `_submit`.
pub mod Validity
use deadpool.Base.{
  ℕ, suc, ◌≤◌, ◌<◌, ◌≡◌, refl, Bool, true, false, not, String, Option, none, some, List, [], ◌∷◌,
  ◌&&◌, ◌||◌, if◌then◌else◌, arith, ◌⊎◌, inl, inr,
}
use deadpool.Dict.{Dict, lookup, delete, text_key}
use deadpool.Python.{
  ℤ, pos, negsuc, Float, finite, PyValue, int, bool, float, str, none_value, nonpositive, negative,
  is_finite, float_nonpositive, float_negative,
}
use deadpool.Result.{
  Result, ok, err, Error, guard, ◌>>◌, ◌>>=◌, type_error, value_error, overflow_error, >>-eq-ok,
}
use deadpool.Protocol.Json.{Fields, end}
use deadpool.Broker.State.{same}

-- A value of a keyword argument, as its checks tell it from others.
pub data Argument : Type 0 where
  plain : PyValue → Argument
  dict : Fields → Argument
  other : Argument

-- The options of a submission, before and after the checks.
pub record Options : Type 0 where
  pub priority : Argument
  pub execution_timeout : Argument
  pub queue_timeout : Argument
  pub submission_timeout : Argument
  pub group_id : Argument
  pub metadata : Argument

abbrev or_default : Option Argument → Argument → Argument
or_default none d = d
or_default (some v) d = v

abbrev take : String → Argument → Dict String Argument → Argument
take name d kwargs = or_default (lookup name kwargs) d

-- kwargs.pop(name, None) for the six names
unfoldable pub rest_of : Dict String Argument → Dict String Argument
rest_of kwargs = delete "deadpool_priority" (
    delete "deadpool_timeout" (
      delete "deadpool_queue_timeout" (
        delete "deadpool_submission_timeout"
          (delete "deadpool_group_id" (delete "deadpool_metadata" kwargs)))))

unfoldable pub options_of : Argument → Dict String Argument → Options
options_of default_submission_timeout kwargs = record {
  priority = take "deadpool_priority" (plain (int (pos 0))) kwargs;
  execution_timeout = take "deadpool_timeout" (plain none_value) kwargs;
  queue_timeout = take "deadpool_queue_timeout" (plain none_value) kwargs;
  submission_timeout = take "deadpool_submission_timeout" default_submission_timeout kwargs;
  group_id = take "deadpool_group_id" (plain none_value) kwargs;
  metadata = take "deadpool_metadata" (dict end) kwargs;
}

module _ (too_large : ℤ → Bool) where
  -- math.isfinite of an integer raises OverflowError for one that no float can hold (`too_large`)
  abbrev pub is_representable : ℤ → Result (Unit {0})
  is_representable n = guard (not (too_large n)) overflow_error

  -- the checks of a duration that may be None
  unfoldable pub optional_timeout : Argument → Result (Unit {0})
  optional_timeout (plain none_value) = ok tt
  optional_timeout (plain (int n)) = is_representable n >> guard (not (negative n)) value_error
  optional_timeout (plain (float x)) = guard (is_finite x && not (float_negative x)) value_error
  optional_timeout _ = err value_error

  -- `_positive_timeout`
  unfoldable pub positive_timeout : Argument → Result (Unit {0})
  positive_timeout (plain (int n)) = is_representable n >> guard (not (nonpositive n)) value_error
  positive_timeout (plain (float x)) = guard (is_finite x && not (float_nonpositive x)) value_error
  positive_timeout _ = err value_error

  abbrev pub check_group : Argument → Result (Unit {0})
  check_group (plain none_value) = ok tt
  check_group (plain (str s)) = guard (not (same s "")) value_error
  check_group _ = err type_error

  abbrev pub check_metadata : Argument → Result (Unit {0})
  check_metadata (dict fields) = ok tt
  check_metadata _ = err type_error

  abbrev pub check_priority : Argument → Result (Unit {0})
  check_priority (plain (int n)) = guard (not (negative n)) value_error
  check_priority _ = err value_error

  -- the checks of `_submission_options`, and then that of the priority
  unfoldable pub check_options : Options → Result (Unit {0})
  unfolding optional_timeout positive_timeout
  check_options o = do
    optional_timeout o.execution_timeout
    optional_timeout o.queue_timeout
    positive_timeout o.submission_timeout
    check_group o.group_id
    check_metadata o.metadata
    check_priority o.priority

  -- A duration in numbers: an integer that a float can hold, or a finite float.
  abbrev pub IsDuration : (ℕ → Type 0) → Argument → Type 0
  IsDuration P v =
      ((n : ℕ) × (v ≡ plain (int (pos n))) × (too_large (pos n) ≡ false) × P n)
      ⊎ ((m : ℕ) × (k : ℤ) × (v ≡ plain (float (finite (pos m) k))) × P m)

  -- What a submission may ask for.
  pub record IsValid (o : Options) : Type 0 where
    pub execution :
        (o.execution_timeout ≡ plain none_value) ⊎ IsDuration (λ n. Unit) o.execution_timeout
    pub queue : (o.queue_timeout ≡ plain none_value) ⊎ IsDuration (λ n. Unit) o.queue_timeout
    pub submission : IsDuration (λ n. 0 < n) o.submission_timeout
    pub group :
        (o.group_id ≡ plain none_value)
        ⊎ ((s : String) × (o.group_id ≡ plain (str s)) × (same s "" ≡ false))
    pub metadata : (fields : Fields) × (o.metadata ≡ dict fields)
    pub priority : (n : ℕ) × (o.priority ≡ plain (int (pos n)))
