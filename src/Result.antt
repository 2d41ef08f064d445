-- ===== src/Result.antt =====
-- Python code that returns or raises: the exceptions that the modelled code raises or lets through.
use deadpool.Base.{◌≡◌, refl, Bool, true, false, Option, none, some, arith, ◌⊎◌, inl, inr}

pub data Error : Type 0 where
  index_error key_error value_error type_error overflow_error : Error
  -- RemoteProtocolError of remote/errors.py
  remote_protocol_error : Error
  -- PoolClosed of _pool.py, queue.Full of the standard library
  pool_closed full : Error
  eof_error : Error
  -- RuntimeError, RemoteExecutorUnavailable and RemoteSubmissionTimeout of remote/errors.py
  runtime_error unavailable submission_timeout : Error

-- What a call of Python gives: an exception that it raises, or the value that it returns.
pub data Result {ℓ} (T : Type ℓ) : Type ℓ where
  err : Error → Result T
  ok : T → Result T

-- A test that raises where it fails, `if not passed: raise x`.
abbrev pub guard : Bool → Error → Result (Unit {0})
guard false x = err x
guard true x = ok tt

-- A lookup that raises where it finds nothing.
abbrev pub or_raise {ℓ} : {T : Type ℓ} → Option T → Error → Result T
or_raise (some v) x = ok v
or_raise none x = err x

module _ {κ} {T : Type κ} where
  infixl 5 ◌>>=◌ ◌>>◌
  abbrev pub ◌>>=◌ {μ} : {S : Type μ} → Result S → (S → Result T) → Result T
  err x >>= next = err x
  ok v >>= next = next v

  abbrev pub ◌>>◌ : Result (Unit {0}) → Result T → Result T
  err x >> next = err x
  ok _ >> next = next

  -- A chain that returned had a first call that returned.
  pub >>-eq-ok :
      (first : Result (Unit {0})) (next : Result T) {w : T}
      → (first >> next) ≡ ok w
      → (first ≡ ok tt) × (next ≡ ok w)
  >>-eq-ok (err x) next returned = cc
  >>-eq-ok (ok v) next returned = (refl, returned)

  pub >>=-eq-ok {μ} :
      {S : Type μ} (first : Result S) (next : S → Result T) {w : T}
      → (first >>= next) ≡ ok w
      → (v : S) × (first ≡ ok v) × (next v ≡ ok w)
  >>=-eq-ok (err x) next returned = cc
  >>=-eq-ok (ok v) next returned = (v, refl, returned)

pub guard-ok : (b : Bool) (e : Error) → guard b e ≡ ok tt → b ≡ true
guard-ok b e h = ground arith

pub Result-cases {ℓ} :
    {A : Type ℓ} (m : Result A) → ((a : A) × (m ≡ ok a)) ⊎ ((e : Error) × (m ≡ err e))
Result-cases (ok a) = inl (a, refl)
Result-cases (err e) = inr (e, refl)

-- What holds of both branches of a result holds of its elimination.
pub result-case {ℓ κ μ} :
    {A : Type ℓ} {B : Type κ} (P : B → Type μ) (m : Result A) {f : Error → B} {g : A → B}
    → ((e : Error) → m ≡ err e → P (f e))
    → ((a : A) → m ≡ ok a → P (g a))
    → P (elim m [ err e ↦ f e | ok a ↦ g a ])
result-case P (ok a) f g = g a refl
result-case P (err e) f g = f e refl
