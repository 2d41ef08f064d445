-- ===== src/Dict.antt =====
-- Python's `dict` as an association list in order of insertion: a new key goes to the end, an
-- assignment to a key that is present changes its value in place. Keys are compared by `==`.
pub mod Laws
pub mod Sums
use text.Mathlib.Text.{◌==◌ as str_eq}
use text.Mathlib.TextEquality.{eq_iff}
use deadpool.Base.{
  ℕ, String, ◌≡◌, refl, Bool, true, false, Option, none, some, List, [], ◌∷◌, map, ite, false≢true,
  ℕ_discrete, is_some, sym, ◌∙◌,
}
use deadpool.Base.{Bool-cases, inl, inr}

-- A type whose values Python can compare and hash.
pub record Key {κ} (K : Type κ) : Type κ where
  pub eq : Discrete K

instance abbrev pub nat_key : Key ℕ
nat_key = record { eq = ℕ_discrete }

decide_text : (s t : String) (b : Bool) → str_eq s t ≡ b → Dec (s ≡ t)
decide_text s t true e = yes ((eq_iff s t).0 e)
decide_text s t false e = no (λ p. false≢true (sym e ∙ (eq_iff s t).1 p))

unfoldable pub text_eq : Discrete String
unfolding decide_text
text_eq s t = decide_text s t (str_eq s t) refl

instance abbrev pub text_key : Key String
text_key = record { eq = text_eq }

abbrev pub Dict {ℓ} : Type ℓ → Type ℓ → Type ℓ
Dict K V = List (K × V)

module _ {ℓ} {K V : Type ℓ} ⦃e : Key K⦄ where
  -- d.get(k)
  unfoldable pub lookup : K → Dict K V → Option V
  lookup k [] = none
  lookup k ((j, v) ∷ d) = ite (e.eq j k) (some v) (lookup k d)

  -- d[k] = v
  unfoldable pub insert : K → V → Dict K V → Dict K V
  insert k v [] = (k, v) ∷ []
  insert k v ((j, w) ∷ d) = ite (e.eq j k) ((j, v) ∷ d) ((j, w) ∷ insert k v d)

  -- d.pop(k, None)
  unfoldable pub delete : K → Dict K V → Dict K V
  delete k [] = []
  delete k ((j, v) ∷ d) = let rest = delete k d in ite (e.eq j k) rest ((j, v) ∷ rest)

  -- k in d
  abbrev pub has : K → Dict K V → Bool
  has k d = is_some (lookup k d)

  -- The keys of a dict are distinct.
  abbrev pub Unique : Dict K V → Type ℓ
  Unique [] = Unit
  Unique ((j, v) ∷ d) = (lookup j d ≡ none) × Unique d

module _ {ℓ} {K V : Type ℓ} where
  -- list(d)
  abbrev pub keys : Dict K V → List K
  keys [] = []
  keys ((k, v) ∷ d) = k ∷ keys d

  -- list(d.values())
  abbrev pub values : Dict K V → List V
  values [] = []
  values ((k, v) ∷ d) = v ∷ values d
