-- ===== src/Property/Map.antt =====
-- Layered maps of properties: include/boost/connector/property_map.hpp and src/property_map.cpp. A layer is
-- not written to once it is fixed or has become a parent, so a pointer to it is its value.
use boost_connector.Base.{Text, Option, none, some, [], ◌>>=◌}
use boost_connector.Base.Dict.{Dict, lookup, put}

-- A layer without a parent, or over one.
pub data PropertyMapLayer (V : Type 0) : Type 0 where
  root : Dict V → PropertyMapLayer V
  over : PropertyMapLayer V → Dict V → PropertyMapLayer V

-- The pointers may be null.
pub record PropertyMap (V : Type 0) : Type 0 where
  pub impl : Option (PropertyMapLayer V)

pub record MutablePropertyMap (V : Type 0) : Type 0 where
  pub impl : Option (PropertyMapLayer V)

module _ {V : Type 0} where
  abbrev or_parent : Option V → Option V → Option V
  or_parent (some v) up = some v
  or_parent none up = up

  unfoldable pub query_layer : Text → PropertyMapLayer V → Option V
  unfolding lookup
  query_layer k (root m) = lookup k m
  query_layer k (over parent m) = let above = query_layer k parent in or_parent (lookup k m) above

  unfoldable pub set_layer : Text → V → PropertyMapLayer V → PropertyMapLayer V
  unfolding put
  set_layer k v (root m) = root (put k v m)
  set_layer k v (over parent m) = over parent (put k v m)

  -- A new layer, over the given one if there is one.
  unfoldable pub make_mutable : Option (PropertyMapLayer V) → MutablePropertyMap V
  make_mutable none = record { impl = some (root []) }
  make_mutable (some parent) = record { impl = some (over parent []) }

  -- `none` where a null pointer is followed; the inner option is the result.
  unfoldable pub query : Text → PropertyMap V → Option (Option V)
  query k m = m.impl >>= λ l. some (query_layer k l)

  unfoldable pub set : Text → V → MutablePropertyMap V → Option (MutablePropertyMap V)
  set k v m = m.impl >>= λ l. some (record { impl = some (set_layer k v l) })

  unfoldable pub mutate : PropertyMap V → MutablePropertyMap V
  unfolding make_mutable
  mutate source = make_mutable source.impl

  -- The fixed map, and the map that was moved from.
  unfoldable pub fix : MutablePropertyMap V → PropertyMap V × MutablePropertyMap V
  fix m = (record { impl = m.impl }, record { impl = none })
