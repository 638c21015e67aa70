-- ===== src/Property/Value.antt =====
-- A value of any printable, hashable and comparable type:
-- include/boost/connector/property_value.hpp and src/property_value.cpp. A type is its `type_info`, a
-- number, and an object of any type an element of `V`; the operations of the contained types are
-- parameters.
use boost_connector.Base.{
  ℕ, Text, codes, Bool, true, false, ◌&&◌, Option, none, some, ◌==◌, leb, if◌then◌else◌,
}

-- The storage with its jump table: the empty one, an object in the buffer, or one behind a pointer.
pub data PropertyValue (V : Type 0) : Type 0 where
  void : PropertyValue V
  short long : ℕ → V → PropertyValue V

-- `sizeof(std::string)`, the size of the buffer.
abbrev pub sbo_size : ℕ
sbo_size = 32

module _ {V : Type 0} where
  -- `info`: the type, with the object; `void` has type 0 and no object of its own.
  unfoldable pub info : PropertyValue V → Option (ℕ × V)
  info void = none
  info (short t x) = some (t, x)
  info (long t x) = some (t, x)

  abbrev of_type : ℕ → Option (ℕ × V) → Option V
  of_type t none = none
  of_type t (some (u, x)) = if u == t then some x else none

  -- `query<T>`, for a type other than `void`.
  unfoldable pub query : ℕ → PropertyValue V → Option V
  unfolding info
  query t p = of_type t (info p)

  -- `query<void>() != nullptr`
  unfoldable pub is_void : PropertyValue V → Bool
  is_void void = true
  is_void _ = false

  -- The move constructor: the new value, and the source afterwards.
  unfoldable pub move : PropertyValue V → PropertyValue V × PropertyValue V
  move other = (other, void)

  -- Move assignment: `*this` and the other value afterwards. What `*this` held is destroyed.
  unfoldable pub assign : PropertyValue V → PropertyValue V → PropertyValue V × PropertyValue V
  unfolding move
  assign self other =
      let (tmp, other') = move other in let (self', tmp') = move tmp in (self', other')

  -- Move assignment of a value to itself.
  unfoldable pub assign_self : PropertyValue V → PropertyValue V
  unfolding move
  assign_self self = let (tmp, self') = move self in let (self'', tmp') = move tmp in self''

module _ {V : Type 0} (size_of : ℕ → ℕ) (equal_to : ℕ → V → V → Bool) (hash : ℕ → V → ℕ)
    (print : ℕ → V → Text) where
  unfoldable pub construct : ℕ → V → PropertyValue V
  construct t x = if leb (size_of t) sbo_size then short t x else long t x

  compare_equal : ℕ → V → Option (ℕ × V) → Bool
  compare_equal t x none = false
  compare_equal t x (some (u, y)) = (t == u) && equal_to t x y

  is_none : Option (ℕ × V) → Bool
  is_none none = true
  is_none (some a) = false

  -- `operator==`, by the jump table of the left side.
  unfoldable pub value_eq : PropertyValue V → PropertyValue V → Bool
  unfolding compare_equal is_none info
  value_eq void r = is_none (info r)
  value_eq (short t x) r = compare_equal t x (info r)
  value_eq (long t x) r = compare_equal t x (info r)

  unfoldable pub hash_value : PropertyValue V → ℕ
  hash_value void = 0
  hash_value (short t x) = hash t x
  hash_value (long t x) = hash t x

  unfoldable pub to_ostream : PropertyValue V → Text
  to_ostream void = codes "empty"
  to_ostream (short t x) = print t x
  to_ostream (long t x) = print t x
