-- ===== src/Protocol/Sorting.antt =====
-- The order in which `_json_dumps` of deadpool/remote/_protocol.py writes the fields of objects,
-- sort_keys=True of `json.dumps`: by their keys, at every level.
use Prim.Native.String.{compare}
use Prim.Native.Nat.{Ordering}
use deadpool.Base.{
  suc, ◌≡◌, refl, Bool, true, false, String, Option, none, some, arith, ite, if◌then◌else◌, ◌||◌,
}
use deadpool.Dict.{lookup, text_key, text_eq}
use deadpool.Protocol.Json.{
  Json, null, bool, int, float, str, arr, obj, Items, nil, cons, Fields, end, field, count_fields,
}
use deadpool.Protocol.Receive.{dict_of}

-- k <= j, in the order of code points
abbrev goes_first : String → String → Bool
goes_first k j =
    ite (text_eq k j) true false || (elim (compare k j) [ Ordering.lt ↦ true | _ ↦ false ])

unfoldable pub insert_field : String → Json → Fields → Fields
insert_field k v end = field k v end
insert_field k v (field j w fs) =
    let rest = insert_field k v fs in
    if goes_first k j then field k v (field j w fs) else field j w rest

unfoldable mutual
  unfolding insert_field

  pub sort_json : Json → Json
  sort_json null = null
  sort_json (bool b) = bool b
  sort_json (int n) = int n
  sort_json (float x) = float x
  sort_json (str s) = str s
  sort_json (arr vs) = arr (sort_items vs)
  sort_json (obj fs) = obj (sort_fields fs)

  pub sort_items : Items → Items
  sort_items nil = nil
  sort_items (cons v vs) = cons (sort_json v) (sort_items vs)

  pub sort_fields : Fields → Fields
  sort_fields end = end
  sort_fields (field k v fs) = insert_field k (sort_json v) (sort_fields fs)

-- What an object has under a key, with the fields of the values sorted.
abbrev pub sorted_entry : Option Json → Option Json
sorted_entry none = none
sorted_entry (some v) = some (sort_json v)

-- An object has the fields of another one, in some order at every level.
pub record SameObject (fs gs : Fields) : Type 0 where
  pub size : count_fields gs ≡ count_fields fs
  pub entries : (name : String) → lookup name (dict_of gs) ≡ sorted_entry (lookup name (dict_of fs))

count_fields-insert_field :
    (k : String) (v : Json) (fs : Fields)
    → count_fields (insert_field k v fs) ≡ suc (count_fields fs)
unfolding insert_field
count_fields-insert_field k v end = refl
count_fields-insert_field k v (field j w fs) = ground (arith, count_fields-insert_field k v fs)

lookup-insert_field :
    (name k : String) (v : Json) (fs : Fields)
    → lookup name (dict_of (insert_field k v fs))
      ≡ ite (text_eq k name) (some v) (lookup name (dict_of fs))
unfolding insert_field lookup
lookup-insert_field name k v end = refl
lookup-insert_field name k v (field j w fs) = ground (arith, lookup-insert_field name k v fs)

count_fields-sort_fields : (fs : Fields) → count_fields (sort_fields fs) ≡ count_fields fs
unfolding sort_json
count_fields-sort_fields end = refl
count_fields-sort_fields (field k v fs) =
    ground (
      arith,
      count_fields-insert_field k (sort_json v) (sort_fields fs),
      count_fields-sort_fields fs,
    )

lookup-sort_fields :
    (name : String) (fs : Fields)
    → lookup name (dict_of (sort_fields fs)) ≡ sorted_entry (lookup name (dict_of fs))
unfolding sort_json lookup
lookup-sort_fields name end = refl
lookup-sort_fields name (field k v fs) =
    ground
      (arith, lookup-insert_field name k (sort_json v) (sort_fields fs), lookup-sort_fields name fs)

pub sort_fields-SameObject : (fs : Fields) → SameObject fs (sort_fields fs)
sort_fields-SameObject fs = record {
  size = count_fields-sort_fields fs;
  entries = λ name. lookup-sort_fields name fs;
}
