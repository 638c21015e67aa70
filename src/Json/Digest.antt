-- ===== src/Json/Digest.antt =====
-- The bytes of a value that go into a digest: `update_sha256` of src/jsonext.cpp. Each function gives what
-- it appends to the hashed text, since successive `SHA256_Update` calls hash one concatenated text.
pub mod Reorder
use boost_connector.Base.{
  ℕ, zero, suc, ◌/◌, ◌%◌, Text, codes, text_lt, Bool, true, false, List, [], ◌∷◌, ◌++◌,
  if◌then◌else◌,
}
use boost_connector.Json.{
  Value, Items, Fields, null, bool_, int64, uint64, double_, string, array, object, nil, item, end,
  field,
}

unfoldable pub update_bool : Bool → Text
update_bool val = if val then codes "1" else codes "0"

-- The bytes of a number, the least significant first.
unfoldable pub little : ℕ → ℕ → Text
little zero n = []
little (suc k) n = (n % 256) ∷ little k (n / 256)

unfoldable pub update_int64 : ℕ → Text
unfolding little
update_int64 v = little 8 v

unfoldable pub update_uint64 : ℕ → Text
unfolding little
update_uint64 v = little 8 v

unfoldable pub update_double : ℕ → Text
unfolding little
update_double v = little 8 v

-- `std::sort` by key; a key is a key once.
unfoldable pub insert_key : Text × Text → List (Text × Text) → List (Text × Text)
insert_key (k, v) [] = (k, v) ∷ []
insert_key (k, v) ((j, w) ∷ ps) =
    if text_lt j k then (j, w) ∷ insert_key (k, v) ps else (k, v) ∷ (j, w) ∷ ps

unfoldable pub sort_keys : List (Text × Text) → List (Text × Text)
sort_keys [] = []
sort_keys (p ∷ ps) = insert_key p (sort_keys ps)

unfoldable pub concat_pairs : List (Text × Text) → Text
concat_pairs [] = []
concat_pairs ((k, v) ∷ ps) = k ++ (v ++ concat_pairs ps)

unfoldable mutual
  unfolding update_bool update_int64 update_uint64 update_double sort_keys concat_pairs

  pub update_sha256 : Value → Text
  update_sha256 null = codes "null"
  update_sha256 (bool_ b) = update_bool b
  update_sha256 (int64 n) = update_int64 n
  update_sha256 (uint64 n) = update_uint64 n
  update_sha256 (double_ n) = update_double n
  update_sha256 (string s) = s
  update_sha256 (array a) = update_array a
  update_sha256 (object o) = concat_pairs (sort_keys (update_fields o))

  pub update_array : Items → Text
  update_array nil = []
  update_array (item v a) = update_sha256 v ++ update_array a

  -- The fields of an object, each with the bytes of its value.
  pub update_fields : Fields → List (Text × Text)
  update_fields end = []
  update_fields (field k v o) = (k, update_sha256 v) ∷ update_fields o
