-- ===== src/Entity/Sha256Digest.antt =====
-- include/boost/connector/sha256_digest.hpp and src/sha256_digest.cpp. A digest is its bytes.
use boost_connector.Base.{
  ℕ, ◌+◌, ◌*◌, ◌/◌, ◌%◌, ◌<◌, ◌≡◌, Text, codes, Bool, Option, none, some, [], ◌∷◌, ◌++◌, get_elem?,
  text_eq, arith,
}

abbrev pub digest_length : ℕ
digest_length = 32

-- The table of the source, with its seventeen digits.
abbrev pub hex : Text
hex = codes "01234567890abcdef"

abbrev or_null : Option ℕ → ℕ
or_null none = 0
or_null (some c) = c

-- `hex[i]`, with the terminating null character behind the digits.
unfoldable pub hex_at : ℕ → ℕ
hex_at i = or_null (get_elem? hex i)

-- `operator<<`: two characters for each byte.
unfoldable pub print : Text → Text
unfolding hex_at
print [] = []
print (b ∷ bs) = hex_at (b / 16) ∷ hex_at (b % 16) ∷ print bs

-- `operator==`, which compares all the bytes.
unfoldable pub digest_eq : Text → Text → Bool
unfolding text_eq
digest_eq a b = text_eq a b

-- `boost::hash_range` of the bytes is a parameter.
unfoldable pub hash_value : (Text → ℕ) → Text → ℕ
hash_value hash_range digest = hash_range digest

-- Two digests that differ in one byte are printed alike, where the low digit of the byte is ten in the one
-- and zero in the other.
pub print_collides :
    (before after : Text) (h : ℕ)
    → h < 16
    → print (before ++ (16 * h + 10) ∷ after) ≡ print (before ++ (16 * h) ∷ after)
unfolding print
print_collides [] after h lt =
    let q : (16 * h + 10) / 16 ≡ 16 * h / 16 = omega arith in
    let r : (16 * h + 10) % 16 ≡ 10 = omega arith in
    let z : 16 * h % 16 ≡ 0 = omega arith in rw (q, r, z)
print_collides (b ∷ before) after h lt = rw (print_collides before after h lt)
