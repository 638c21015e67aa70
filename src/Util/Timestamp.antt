-- ===== src/Util/Timestamp.antt =====
-- include/boost/connector/types/timestamp.hpp. The clock counts nanoseconds since the epoch in a signed
-- number of 64 bits, and the hash of such a number is a parameter.
use boost_connector.Base.{
  ℕ, ◌+◌, ◌-◌, ◌/◌, ◌%◌, ◌<◌, Text, Bool, true, false, ◌≡◌, ◌↔◌, ltb, ◌==◌, arith, if◌then◌else◌,
}
use boost_connector.Ftx.Credentials.{to_string}

-- `negsuc n` is -(n + 1).
pub data Count : Type 0 where
  pos negsuc : ℕ → Count

pub record TimestampType : Type 0 where
  pub impl : Count

-- The conversion of a signed number to `std::uint64_t`.
abbrev to_uint64 : Count → ℕ
to_uint64 (pos n) = n % 18446744073709551616
to_uint64 (negsuc n) = (18446744073709551616 - 1 - n % 18446744073709551616)

-- `duration_cast` to milliseconds, which rounds towards zero.
abbrev to_millis : Count → Count
to_millis (pos n) = pos (n / 1000000)
to_millis (negsuc n) = if (n + 1) / 1000000 == 0 then pos 0 else negsuc ((n + 1) / 1000000 - 1)

unfoldable pub nanos : TimestampType → ℕ
nanos t = to_uint64 t.impl

unfoldable pub millis : TimestampType → ℕ
millis t = to_uint64 (to_millis t.impl)

abbrev count_eq : Count → Count → Bool
count_eq (pos a) (pos b) = a == b
count_eq (negsuc a) (negsuc b) = a == b
count_eq _ _ = false

abbrev count_lt : Count → Count → Bool
count_lt (pos a) (pos b) = ltb a b
count_lt (pos a) (negsuc b) = false
count_lt (negsuc a) (pos b) = true
count_lt (negsuc a) (negsuc b) = ltb b a

-- `operator==` and `operator<`
unfoldable pub equal_to : TimestampType → TimestampType → Bool
equal_to l r = count_eq l.impl r.impl

unfoldable pub less : TimestampType → TimestampType → Bool
less l r = count_lt l.impl r.impl

unfoldable pub print : TimestampType → Text
unfolding nanos to_string
print t = to_string (nanos t)

unfoldable pub hash_value : (Count → ℕ) → TimestampType → ℕ
hash_value hash t = hash t.impl

-- A count of 64 bits with its sign.
abbrev pub InRange : Count → Type 0
InRange (pos n) = n < 9223372036854775808
InRange (negsuc n) = n < 9223372036854775808

-- Two times that the clock can count are equal exactly if their nanoseconds are, also before the epoch.
pub equal_to-nanos :
    (l r : TimestampType)
    → InRange l.impl
    → InRange r.impl
    → (equal_to l r ≡ true) ↔ (nanos l ≡ nanos r)
unfolding equal_to nanos
equal_to-nanos l r h k = ground arith

-- For a time since the epoch that the clock can count, `millis` is `nanos` without its last six digits.
pub millis-nanos :
    (t : TimestampType) (n : ℕ)
    → t.impl ≡ pos n
    → n < 9223372036854775808
    → millis t ≡ nanos t / 1000000
unfolding millis nanos
millis-nanos t n e h = ground arith
