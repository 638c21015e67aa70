-- ===== src/Json/Digest/Reorder.antt =====
-- The digest and the order of the fields of an object: `update_object` of src/jsonext.cpp.
use boost_connector.Base.{
  Text, text_eq, text_lt_irrefl, text_lt_trans, text_lt_total, false, ◌≡◌, refl, ap, ◌∙◌, List, [],
  ◌∷◌, arith,
}
use boost_connector.Json.{Value, Fields, object, field}
use boost_connector.Json.Digest.{insert_key, sort_keys, concat_pairs, update_sha256, update_fields}

-- Two objects with the same fields in another order, no key twice among those that change places.
pub data Reordered : Fields → Fields → Type 0 where
  same : (o : Fields) → Reordered o o
  swap :
      (k j : Text) (v w : Value) (o : Fields)
      → text_eq k j ≡ false
      → Reordered (field k v (field j w o)) (field j w (field k v o))
  keep :
      (k : Text) (v : Value) {o o' : Fields}
      → Reordered o o'
      → Reordered (field k v o) (field k v o')
  chain : {o o' o'' : Fields} → Reordered o o' → Reordered o' o'' → Reordered o o''

insert_key-swap :
    (k j a b : Text) (ps : List (Text × Text))
    → text_eq k j ≡ false
    → insert_key (k, a) (insert_key (j, b) ps) ≡ insert_key (j, b) (insert_key (k, a) ps)
unfolding insert_key
insert_key-swap k j a b [] h = ground (
  arith,
  text_lt_total k j,
  text_lt_trans k j k,
  text_lt_trans j k j,
  text_lt_irrefl k,
  text_lt_irrefl j,
)
insert_key-swap k j a b ((i, c) ∷ ps) h = ground (
  arith,
  insert_key-swap k j a b ps h,
  text_lt_total k j,
  text_lt_irrefl k,
  text_lt_irrefl j,
  text_lt_trans k j k,
  text_lt_trans j k j,
  text_lt_trans j i k,
  text_lt_trans k i j,
  text_lt_trans i k j,
  text_lt_trans i j k,
)

sort_keys-Reordered :
    {o o' : Fields} → Reordered o o' → sort_keys (update_fields o) ≡ sort_keys (update_fields o')
unfolding sort_keys update_fields
sort_keys-Reordered (same o) = refl
sort_keys-Reordered (swap k j v w o h) = insert_key-swap k j _ _ (sort_keys (update_fields o)) h
sort_keys-Reordered (keep k v r) = ap (insert_key (k, update_sha256 v)) (sort_keys-Reordered r)
sort_keys-Reordered (chain r s) = sort_keys-Reordered r ∙ sort_keys-Reordered s

-- Objects that differ in the order of their fields feed the same bytes to the digest.
pub update_sha256-Reordered :
    {o o' : Fields} → Reordered o o' → update_sha256 (object o) ≡ update_sha256 (object o')
unfolding update_sha256
update_sha256-Reordered r = ap concat_pairs (sort_keys-Reordered r)
