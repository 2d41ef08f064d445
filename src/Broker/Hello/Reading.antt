-- ===== src/Broker/Hello/Reading.antt =====
-- What the checks of deadpool/remote/server.py make sure of in a HELLO, read off its fields, and whom
-- they authenticate.
use Prim.Native.String.{count as char_count, ◌++◌ as append}
use deadpool.Base.{
  ℕ, zero, suc, ◌≤◌, ◌<◌, ◌≡◌, ◌≢◌, refl, Bool, true, false, String, Option, none, some, ◌⊎◌, inl,
  inr, arith, ◌==◌, ap, sym, ◌∙◌, Bool-cases, Option-cases, subst,
}
use deadpool.Dict.{nat_key, text_key}
use deadpool.Python.{pos, negsuc}
use deadpool.Config.Limits.{Limits}
use deadpool.Protocol.Json.{Json, null, bool, int, float, str, arr, obj, Items, nil, cons, Fields}
use deadpool.Protocol.WireLimits.{NamesLimits, is_positive_int}
use deadpool.Broker.Identity.{Identity, Peer}
use deadpool.Broker.State.{same, get}
use deadpool.Broker.Hello.{
  holds, is_name, any_item, is_list, says, is_pair, differs, uid_name, unix_principal,
  tcp_principal, checked_name, principal_of,
}

-- A value is in a list.
pub data Has (v : Json) : Items → Type 0 where
  here : {vs : Items} → Has v (cons v vs)
  there : {w : Json} {vs : Items} → Has v vs → Has v (cons w vs)

-- [m, n]
abbrev pub pair : ℕ → ℕ → Json
pair m n = arr (cons (int (pos m)) (cons (int (pos n)) nil))

-- A fingerprint that the server has is the client's.
abbrev pub Fingerprint : Option String → Option Json → Type 0
Fingerprint none v = Unit
Fingerprint (some text) v = v ≡ some (str text)

-- A HELLO that a server of these limits and this identity takes, of a client.
pub record IsGreeting (l : Limits) (i : Identity) (hello : Fields) (client : String) : Type 0 where
  pub client_instance_id : get "client_instance_id" hello ≡ some (str client)
  pub client_named : (client ≢ "") × (char_count client ≤ 128)
  pub wire : (text : String) × (get "wire" hello ≡ some (str text)) × (text ≢ "")
  pub wire_limits :
      (fields : Fields) × (get "wire_limits" hello ≡ some (obj fields)) × NamesLimits l fields
  pub versions : (vs : Items) × (get "versions" hello ≡ some (arr vs)) × Has (pair 1 0) vs
  pub serializer : get "serializer" hello ≡ some (str i.serializer)
  pub serializer_protocol :
      (v : Json) × (get "serializer_protocol" hello ≡ some v) × (i.text v ≡ i.serializer_protocol)
  pub capabilities :
      (vs : Items) × (get "capabilities" hello ≡ some (arr vs))
      × ((any_item (says "callable") vs ≡ false)
          ⊎ (get "python" hello ≡ some (pair i.python_major i.python_minor)))
  pub max_result_bytes : (n : ℕ) × (get "max_result_bytes" hello ≡ some (int (pos n))) × (0 < n)
  pub registry : Fingerprint i.registry_fingerprint (get "registry_fingerprint" hello)
  pub application : Fingerprint i.application_fingerprint (get "application_fingerprint" hello)

-- The name of the principal that a peer is: what the authenticator says, where there is one; over a
-- Unix socket the server's own user, which the peer's is where that is known; over TCP the digest of
-- the peer's certificate, or the loopback's.
pub data Authenticates (i : Identity) (p : Peer) (hello : Fields) (name : String)
    : Bool → Type 0 where
  by_authenticator :
      {over_unix : Bool} (f : Peer → Fields → Option String)
      → i.authenticator ≡ some f
      → f p hello ≡ some name
      → name ≢ ""
      → Authenticates i p hello name over_unix
  by_uid :
      i.authenticator ≡ none
      → (p.uid ≡ none) ⊎ (p.uid ≡ some i.own_uid)
      → name ≡ append "uid:" (i.decimal i.own_uid)
      → Authenticates i p hello name true
  by_certificate :
      (identity : String)
      → i.authenticator ≡ none
      → p.certificate ≡ some identity
      → name ≡ append "tls:" identity
      → Authenticates i p hello name false
  by_loopback :
      i.authenticator ≡ none
      → p.certificate ≡ none
      → name ≡ "tcp:loopback"
      → Authenticates i p hello name false

pub same_sound : (s t : String) → same s t ≡ true → s ≡ t
same_sound s t h = ground (arith, h)

same-other : (s t : String) → same s t ≡ false → s ≢ t
same-other s t h = ground (arith, h)

pub is_name_sound :
    (o : Option Json) → holds is_name o ≡ true → (s : String) × (o ≡ some (str s)) × (s ≢ "")
is_name_sound none h = ground arith
is_name_sound (some null) h = ground arith
is_name_sound (some (bool b)) h = ground arith
is_name_sound (some (int z)) h = ground arith
is_name_sound (some (float x)) h = ground arith
is_name_sound (some (str s)) h = (s, refl, same-other s "" (ground (arith, h)))
is_name_sound (some (arr vs)) h = ground arith
is_name_sound (some (obj fs)) h = ground arith

pub is_list_sound :
    (f : Json → Bool) (o : Option Json)
    → holds (is_list f) o ≡ true
    → (vs : Items) × (o ≡ some (arr vs))
is_list_sound f none h = ground arith
is_list_sound f (some null) h = ground arith
is_list_sound f (some (bool b)) h = ground arith
is_list_sound f (some (int z)) h = ground arith
is_list_sound f (some (float x)) h = ground arith
is_list_sound f (some (str s)) h = ground arith
is_list_sound f (some (arr vs)) h = (vs, refl)
is_list_sound f (some (obj fs)) h = ground arith

pub is_positive_int_sound :
    (o : Option Json)
    → holds is_positive_int o ≡ true
    → (n : ℕ) × (o ≡ some (int (pos n))) × (0 < n)
is_positive_int_sound none h = ground arith
is_positive_int_sound (some null) h = ground arith
is_positive_int_sound (some (bool b)) h = ground arith
is_positive_int_sound (some (int (pos zero))) h = ground arith
is_positive_int_sound (some (int (pos (suc n)))) h = (suc n, refl, omega arith)
is_positive_int_sound (some (int (negsuc n))) h = ground arith
is_positive_int_sound (some (float x)) h = ground arith
is_positive_int_sound (some (str s)) h = ground arith
is_positive_int_sound (some (arr vs)) h = ground arith
is_positive_int_sound (some (obj fs)) h = ground arith

says_sound : (text : String) (o : Option Json) → holds (says text) o ≡ true → o ≡ some (str text)
says_sound text none h = ground arith
says_sound text (some null) h = ground arith
says_sound text (some (bool b)) h = ground arith
says_sound text (some (int z)) h = ground arith
says_sound text (some (float x)) h = ground arith
says_sound text (some (str s)) h = ap (λ u. some (str u)) (same_sound s text h)
says_sound text (some (arr vs)) h = ground arith
says_sound text (some (obj fs)) h = ground arith

is_pair_sound : (m n : ℕ) (v : Json) → is_pair m n v ≡ true → v ≡ pair m n
is_pair_sound m n (arr (cons (int (pos x)) (cons (int (pos y)) nil))) h =
    let first : x ≡ m = ground (arith, h) in
    let second : y ≡ n = ground (arith, h) in ap (λ k. pair k y) first ∙ ap (pair m) second
is_pair_sound m n _ h = ground (arith, h)

pub any_item-Has : (m n : ℕ) (vs : Items) → any_item (is_pair m n) vs ≡ true → Has (pair m n) vs
unfolding any_item
any_item-Has m n nil h = ground arith
any_item-Has m n (cons v vs) h = elim (Bool-cases (is_pair m n v)) [
  | inl y ↦ subst (λ x. Has x (cons v vs)) (is_pair_sound m n v y) here
  | inr other ↦ there (any_item-Has m n vs (ground (arith, h, other)))
]

pub holds-pair : (m n : ℕ) (o : Option Json) → holds (is_pair m n) o ≡ true → o ≡ some (pair m n)
holds-pair m n none h = ground arith
holds-pair m n (some v) h = ap (λ u. some u) (is_pair_sound m n v h)

pub differs-Fingerprint :
    (mine : Option String) (o : Option Json) → differs mine o ≡ false → Fingerprint mine o
differs-Fingerprint none o h = tt
differs-Fingerprint (some text) o h = says_sound text o (ground (arith, h))

checked_name_sound :
    (o : Option String) (name : String) → checked_name o ≡ some name → (o ≡ some name) × (name ≢ "")
checked_name_sound none name h = ground arith
checked_name_sound (some s) name h = elim (Bool-cases (same s "")) [
  | inl empty ↦ ground (arith, h, empty)
  | inr other ↦
      let eq : s ≡ name = ground (arith, h, other) in
      (ap (λ u. some u) eq, subst (λ u. u ≢ "") eq (same-other s "" other))
]

some-injective : {s t : String} → some s ≡ some t → s ≡ t
some-injective h = cc

unix_principal_sound :
    (i : Identity) (uid : Option ℕ) (name : String)
    → unix_principal i uid ≡ some name
    → ((uid ≡ none) ⊎ (uid ≡ some i.own_uid)) × (name ≡ append "uid:" (i.decimal i.own_uid))
unix_principal_sound i none name h = (inl refl, cc)
unix_principal_sound i (some uid) name h = elim (Bool-cases (uid == i.own_uid)) [
  | inl y ↦
      let own : uid ≡ i.own_uid = ground (arith, y) in
      let answer : uid_name i uid ≡ some name = ground (arith, h, y) in
      (inr (ap (λ u. some u) own), some-injective (sym answer ∙ ap (uid_name i) own))
  | inr other ↦ ground (arith, h, other)
]

tcp_principal_sound :
    (certificate : Option String) (name : String)
    → tcp_principal certificate ≡ some name
    → ((certificate ≡ none) × (name ≡ "tcp:loopback"))
      ⊎ ((identity : String) × (certificate ≡ some identity) × (name ≡ append "tls:" identity))
tcp_principal_sound none name h = inl (refl, some-injective (sym h))
tcp_principal_sound (some identity) name h = inr (identity, refl, some-injective (sym h))

-- A peer that has a principal is authenticated as that principal.
pub principal_of-Authenticates :
    (i : Identity) (n : ℕ) (over_unix : Bool) (hello : Fields) (name : String)
    → principal_of i n over_unix hello ≡ some name
    → Authenticates i (i.peer n) hello name over_unix
unfolding principal_of
principal_of-Authenticates i n true hello name h = elim (Option-cases i.authenticator) [
  | inl free ↦
      let (own, eq) = unix_principal_sound i (i.peer n).uid name (ground (arith, h, free)) in
      by_uid free own eq
  | inr (f, set) ↦
      let (answer, nonempty) =
        checked_name_sound (f (i.peer n) hello) name (ground (arith, h, set)) in
      by_authenticator f set answer nonempty
]
principal_of-Authenticates i n false hello name h = elim (Option-cases i.authenticator) [
  | inl free ↦ elim (tcp_principal_sound (i.peer n).certificate name (ground (arith, h, free))) [
    | inl (absent, eq) ↦ by_loopback free absent eq
    | inr (identity, present, eq) ↦ by_certificate identity free present eq
  ]
  | inr (f, set) ↦
      let (answer, nonempty) =
        checked_name_sound (f (i.peer n) hello) name (ground (arith, h, set)) in
      by_authenticator f set answer nonempty
]
