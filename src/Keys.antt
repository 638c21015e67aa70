-- ===== src/Keys.antt =====
-- Keys of entities, as the parts of a document that were used: src/entity/key_base.cpp,
-- mutable_key.cpp and immutable_key.cpp with their headers under include/boost/connector/entity. The
-- ordered set of paths is its sorted list; `none` is an exception. The document is shared and constant,
-- so a pointer to it is the value.
pub mod Resolved
pub mod Equality
pub mod Printing
use boost_connector.Base.{
  ℕ, Text, text_eq, set_insert, Bool, true, false, ◌&&◌, Option, none, some, ◌>>=◌, List, [], ◌∷◌,
  ◌++◌, length, ◌==◌, if◌then◌else◌,
}
use boost_connector.Json.{Value}
use boost_connector.Json.Path.{dissect_path, to_path}
use boost_connector.Json.Find.{find_segments, find_path}
use boost_connector.Json.Digest.{update_sha256}

pub record MutableKey : Type 0 where
  pub value : Value
  pub index : List Text

pub record ImmutableKey : Type 0 where
  pub value : Value
  pub index : List Text
  pub digest : Text

unfoldable pub make : Value → MutableKey
make v = record { value = v; index = [] }

unfoldable pub normalise : Text → Text
normalise path = to_path (dissect_path path)

-- The value found, and the key with the path in its index.
unfoldable pub use_path : Text → MutableKey → Option (Value × MutableKey)
unfolding normalise
use_path path k = do
  ref ← find_segments (dissect_path path) k.value
  some (ref, record k { index = set_insert (normalise path) k.index })

insert_all : List Text → List Text → List Text
insert_all [] index = index
insert_all (p ∷ ps) index = insert_all ps (set_insert p index)

unfoldable pub merge : ImmutableKey → MutableKey → MutableKey
unfolding insert_all
merge other k = record k { index = insert_all other.index k.index }

unfoldable pub mutate : ImmutableKey → MutableKey
mutate k = record { value = k.value; index = k.index }

-- What the constructor of an immutable key hashes: each path, and the value there.
unfoldable pub hashed : List Text → Value → Option Text
unfolding find_path
hashed [] v = some []
hashed (p ∷ ps) v = do u ← find_path p v; rest ← hashed ps v; some (p ++ (update_sha256 u ++ rest))

-- The loop of `equal_contents`, over two indexes of one length.
unfoldable pub equal_from :
    (Value → Value → Bool) → List Text → List Text → Value → Value → Option Bool
unfolding find_path
equal_from json_eq [] rs v w = some true
equal_from json_eq (l ∷ ls) [] v w = none
equal_from json_eq (l ∷ ls) (r ∷ rs) v w =
    if text_eq l r
    then (find_path l v >>= λ a. find_path r w >>= λ b. elim (json_eq a b) [
      | true ↦ equal_from json_eq ls rs v w
      | false ↦ some false
    ])
    else some false

-- SHA-256, and the equality of JSON values, are not part of the program.
module _ (sha256 : Text → Text) (json_eq : Value → Value → Bool) where
  unfoldable pub make_immutable : Value → List Text → Option ImmutableKey
  make_immutable v index = do
    t ← hashed index v
    some (record { value = v; index = index; digest = sha256 t })

  unfoldable pub fix : MutableKey → Option ImmutableKey
  unfolding make_immutable
  fix k = make_immutable k.value k.index

  unfoldable pub equal_contents : ImmutableKey → ImmutableKey → Option Bool
  equal_contents l r =
      if length l.index == length r.index
      then equal_from json_eq l.index r.index l.value r.value
      else some false

  -- `operator==`.
  unfoldable pub key_eq : ImmutableKey → ImmutableKey → Option Bool
  unfolding equal_contents
  key_eq l r = if text_eq l.digest r.digest then equal_contents l r else some false
