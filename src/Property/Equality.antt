-- ===== src/Property/Equality.antt =====
-- What a client of property values sees: types, values, equality and hashes, not the storage of
-- include/boost/connector/property_value.hpp.
use boost_connector.Base.{
  ℕ, Text, Bool, true, false, none, some, ◌≡◌, refl, ◌==◌, if◌then◌else◌, arith,
}
use boost_connector.Property.Value.{
  PropertyValue, void, short, long, query, is_void, assign, assign_self, construct, value_eq,
  hash_value, to_ostream,
}

module _ {V : Type 0} where
  -- Move assignment hands over what a query finds for any type, and leaves the source void; a value
  -- moved to itself is kept.
  pub query-assign :
      (t : ℕ) (self other : PropertyValue V)
      → (query t (assign self other).0 ≡ query t other)
        × (is_void (assign self other).1 ≡ true)
        × (query t (assign_self self) ≡ query t self)
  unfolding assign assign_self is_void
  query-assign t self other = (refl, refl, refl)

module _ {V : Type 0} (size_of : ℕ → ℕ) (equal_to : ℕ → V → V → Bool) (hash : ℕ → V → ℕ)
    (print : ℕ → V → Text) where
  -- A value built from an object of a type gives it back to a query for that type and to no other, is
  -- not void, and is printed and hashed as the object is, whether it lies in the buffer or not.
  pub query-construct :
      (t u : ℕ) (x : V)
      → let p = construct size_of equal_to hash print t x in
        (query u p ≡ (if t == u then some x else none))
        × (is_void p ≡ false)
        × (to_ostream size_of equal_to hash print p ≡ print t x)
        × (hash_value size_of equal_to hash print p ≡ hash t x)
  unfolding construct query is_void to_ostream hash_value
  query-construct t u x = (ground arith, ground arith, ground arith, ground arith)

  module _ (lawful : (t : ℕ) (x y : V) → equal_to t x y ≡ true → hash t x ≡ hash t y) where
    -- Values that compare equal have equal hashes, if that holds for each contained type.
    pub hash_value-value_eq :
        (l r : PropertyValue V)
        → value_eq size_of equal_to hash print l r ≡ true
        → hash_value size_of equal_to hash print l ≡ hash_value size_of equal_to hash print r
    unfolding value_eq hash_value
    hash_value-value_eq void void h = refl
    hash_value-value_eq void (short u y) h = cc
    hash_value-value_eq void (long u y) h = cc
    hash_value-value_eq (short t x) void h = cc
    hash_value-value_eq (short t x) (short u y) h = ground (arith, lawful t x y)
    hash_value-value_eq (short t x) (long u y) h = ground (arith, lawful t x y)
    hash_value-value_eq (long t x) void h = cc
    hash_value-value_eq (long t x) (short u y) h = ground (arith, lawful t x y)
    hash_value-value_eq (long t x) (long u y) h = ground (arith, lawful t x y)
