-- ===== src/Broker/Hello/Greeting.antt =====
-- A HELLO that passes `_validate_hello` and the comparisons of `_handshake` in
-- deadpool/remote/server.py, field by field.
use Prim.Native.String.{count as char_count}
use deadpool.Base.{
  ◌≡◌, ◌≢◌, refl, Bool, true, false, not, String, Option, none, some, ◌&&◌, ◌||◌, ◌⊎◌, inl, inr,
  arith, leb, leb→le, ap, sym, ◌∙◌, if◌then◌else◌, subst,
}
use deadpool.Dict.{nat_key, text_key}
use deadpool.Result.{ok, guard-ok, >>-eq-ok}
use deadpool.Config.Limits.{Limits}
use deadpool.Protocol.Json.{Json, null, bool, int, float, str, arr, obj, Items, Fields}
use deadpool.Protocol.Frame.{major_version, minor_version}
use deadpool.Protocol.WireLimits.{
  same_wire_limits, NamesLimits, same_wire_limits-NamesLimits, is_positive_int,
}
use deadpool.Broker.Identity.{Identity}
use deadpool.Broker.State.{same, get}
use deadpool.Broker.Hello.{
  holds, is_text, is_name, text_in, any_item, items_in, is_int_pair, is_list, validate_hello, says,
  is_pair, differs, refusal,
}
use deadpool.Broker.Hello.Reading.{
  same_sound, is_name_sound, is_list_sound, is_positive_int_sound, any_item-Has, holds-pair,
  differs-Fingerprint, pair, IsGreeting,
}

-- What the checks of a HELLO that passes them have tested.
record Passed (l : Limits) (i : Identity) (hello : Fields) : Type 0 where
  versions : holds (is_list is_int_pair) (get "versions" hello) ≡ true
  capabilities : holds (is_list is_text) (get "capabilities" hello) ≡ true
  client : holds is_name (get "client_instance_id" hello) ≡ true
  serializer : holds is_name (get "serializer" hello) ≡ true
  wire : holds is_name (get "wire" hello) ≡ true
  short : leb (char_count (text_in (get "client_instance_id" hello))) 128 ≡ true
  result : holds is_positive_int (get "max_result_bytes" hello) ≡ true

validate_hello-Passed :
    (l : Limits) (i : Identity) (hello : Fields) → validate_hello hello ≡ ok tt → Passed l i hello
unfolding validate_hello
validate_hello-Passed l i hello h =
    let (_, h₁) = >>-eq-ok _ _ h in
    let (versions, h₂) = >>-eq-ok _ _ h₁ in
    let (_, h₃) = >>-eq-ok _ _ h₂ in
    let (capabilities, h₄) = >>-eq-ok _ _ h₃ in
    let (client, h₅) = >>-eq-ok _ _ h₄ in
    let (serializer, h₆) = >>-eq-ok _ _ h₅ in
    let (wire, h₇) = >>-eq-ok _ _ h₆ in
    let (short, h₈) = >>-eq-ok _ _ h₇ in
    let (_, h₉) = >>-eq-ok _ _ h₈ in
    let (_, result) = >>-eq-ok _ _ h₉ in
    record {
      versions = guard-ok _ _ versions;
      capabilities = guard-ok _ _ capabilities;
      client = guard-ok _ _ client;
      serializer = guard-ok _ _ serializer;
      wire = guard-ok _ _ wire;
      short = guard-ok _ _ short;
      result = guard-ok _ _ result;
    }

same_wire_limits-object :
    (l : Limits) (o : Option Json)
    → same_wire_limits l o ≡ true
    → (fields : Fields) × (o ≡ some (obj fields)) × NamesLimits l fields
unfolding same_wire_limits
same_wire_limits-object l none h = ground arith
same_wire_limits-object l (some null) h = ground arith
same_wire_limits-object l (some (bool b)) h = ground arith
same_wire_limits-object l (some (int z)) h = ground arith
same_wire_limits-object l (some (float x)) h = ground arith
same_wire_limits-object l (some (str s)) h = ground arith
same_wire_limits-object l (some (arr vs)) h = ground arith
same_wire_limits-object l (some (obj fields)) h =
    (fields, refl, same_wire_limits-NamesLimits l fields h)

-- What the comparisons of a HELLO that is not refused have found.
record Compatible (l : Limits) (i : Identity) (hello : Fields) : Type 0 where
  wire_limits : same_wire_limits l (get "wire_limits" hello) ≡ true
  versions : any_item (is_pair major_version minor_version) (items_in (get "versions" hello)) ≡ true
  serializer : same (text_in (get "serializer" hello)) i.serializer ≡ true
  protocol :
      holds (λ v. same (i.text v) i.serializer_protocol) (get "serializer_protocol" hello) ≡ true
  python :
      (any_item (says "callable") (items_in (get "capabilities" hello)) ≡ false)
      ⊎ (holds (is_pair i.python_major i.python_minor) (get "python" hello) ≡ true)
  registry : differs i.registry_fingerprint (get "registry_fingerprint" hello) ≡ false
  application : differs i.application_fingerprint (get "application_fingerprint" hello) ≡ false

if_none :
    (b : Bool) (s : String) (o : Option String)
    → (if b then some s else o) ≡ none
    → (b ≡ false) × (o ≡ none)
if_none true s o h = ground arith
if_none false s o h = (refl, h)

not-true : (b : Bool) → not b ≡ false → b ≡ true
not-true b h = ground arith

neither : (a b : Bool) → a || b ≡ false → (a ≡ false) × (b ≡ false)
neither a b h = (ground arith, ground arith)

not_both : (a b : Bool) → a && not b ≡ false → (a ≡ false) ⊎ (b ≡ true)
not_both true b h = inr (not-true b h)
not_both false b h = inl refl

refusal-Compatible :
    (l : Limits) (i : Identity) (hello : Fields) → refusal l i hello ≡ none → Compatible l i hello
unfolding refusal
refusal-Compatible l i hello h =
    let (limits, h₁) = if_none _ _ _ h in
    let (versions, h₂) = if_none _ _ _ h₁ in
    let (serializer, h₃) = if_none _ _ _ h₂ in
    let (python, h₄) = if_none _ _ _ h₃ in
    let (registry, h₅) = if_none _ _ _ h₄ in
    let (application, _) = if_none _ _ _ h₅ in
    let (name, protocol) = neither _ _ serializer in
    record {
      wire_limits = not-true _ limits;
      versions = not-true _ versions;
      serializer = not-true _ name;
      protocol = not-true _ protocol;
      python = not_both _ _ python;
      registry = registry;
      application = application;
    }

holds-some :
    (f : Json → Bool) (o : Option Json)
    → holds f o ≡ true
    → (v : Json) × (o ≡ some v) × (f v ≡ true)
holds-some f none h = ground arith
holds-some f (some v) h = (v, refl, h)

python-callables :
    (i : Identity) (hello : Fields) (cs : Items)
    → (any_item (says "callable") (items_in (get "capabilities" hello)) ≡ false)
      ⊎ (holds (is_pair i.python_major i.python_minor) (get "python" hello) ≡ true)
    → get "capabilities" hello ≡ some (arr cs)
    → (any_item (says "callable") cs ≡ false)
      ⊎ (get "python" hello ≡ some (pair i.python_major i.python_minor))
python-callables i hello cs (inl h) e =
    inl (ap (λ o. any_item (says "callable") (items_in o)) (sym e) ∙ h)
python-callables i hello cs (inr h) e = inr (holds-pair _ _ _ h)

-- A HELLO that passes the checks and is not refused is what the server asks for.
pub hello-IsGreeting :
    (l : Limits) (i : Identity) (hello : Fields)
    → validate_hello hello ≡ ok tt
    → refusal l i hello ≡ none
    → IsGreeting l i hello (text_in (get "client_instance_id" hello))
hello-IsGreeting l i hello valid compatible =
    let p = validate_hello-Passed l i hello valid in
    let c = refusal-Compatible l i hello compatible in
    let (client, client_eq, client_named) =
      is_name_sound (get "client_instance_id" hello) p.client in
    let (serializer, serializer_eq, _) = is_name_sound (get "serializer" hello) p.serializer in
    let (vs, versions_eq) = is_list_sound is_int_pair (get "versions" hello) p.versions in
    let (cs, capabilities_eq) = is_list_sound is_text (get "capabilities" hello) p.capabilities in
    let (v, protocol_eq, protocol) = holds-some _ (get "serializer_protocol" hello) c.protocol in
    let text : text_in (get "client_instance_id" hello) ≡ client = ap text_in client_eq in
    record {
      client_instance_id = client_eq ∙ ap (λ s. some (str s)) (sym text);
      client_named = (subst (λ s. s ≢ "") (sym text) client_named, leb→le _ _ p.short);
      wire = is_name_sound (get "wire" hello) p.wire;
      wire_limits = same_wire_limits-object l (get "wire_limits" hello) c.wire_limits;
      versions = (
        vs,
        versions_eq,
        any_item-Has 1 0 vs (
            ap (λ o. any_item (is_pair major_version minor_version) (items_in o)) (sym versions_eq)
            ∙ c.versions),
      );
      serializer =
          serializer_eq
          ∙ ap (λ s. some (str s))
              (ap text_in (sym serializer_eq) ∙ same_sound _ i.serializer c.serializer);
      serializer_protocol = (v, protocol_eq, same_sound (i.text v) i.serializer_protocol protocol);
      capabilities = (cs, capabilities_eq, python-callables i hello cs c.python capabilities_eq);
      max_result_bytes = is_positive_int_sound (get "max_result_bytes" hello) p.result;
      registry = differs-Fingerprint _ _ c.registry;
      application = differs-Fingerprint _ _ c.application;
    }
