-- ===== src/Property/Dependency.antt =====
-- src/dependency/dependency_map.cpp and include/boost/connector/dependency/dependency_map.hpp. A `std::any`
-- is an element of `V`; a constant map is never written to, and a clone copies the map.
use boost_connector.Base.{
  Text, text_eq, Option, none, some, ◌>>=◌, ◌≡◌, refl, [], if◌then◌else◌, arith,
}
use boost_connector.Base.Dict.{Dict, lookup, put, lookup-put}

pub record DependencyMap (V : Type 0) : Type 0 where
  pub impl : Option (Dict V)

pub record MutableDependencyMap (V : Type 0) : Type 0 where
  pub impl : Option (Dict V)

module _ {V : Type 0} where
  unfoldable pub make : DependencyMap V
  make = record { impl = some [] }

  unfoldable pub make_mutable : MutableDependencyMap V
  make_mutable = record { impl = some [] }

  -- `dependency_map_impl::query`; the outer `none` where a null pointer is followed.
  unfoldable pub query : Text → DependencyMap V → Option (Option V)
  unfolding lookup
  query name m = m.impl >>= λ d. some (lookup name d)

  unfoldable pub set : Text → V → MutableDependencyMap V → Option (MutableDependencyMap V)
  unfolding put
  set name v m = m.impl >>= λ d. some (record { impl = some (put name v d) })

  -- The map is moved out of its source.
  unfoldable pub fix : MutableDependencyMap V → DependencyMap V × MutableDependencyMap V
  fix source = (record { impl = source.impl }, record { impl = none })

  unfoldable pub clone : DependencyMap V → Option (MutableDependencyMap V)
  clone source = source.impl >>= λ d. some (record { impl = some d })

  -- A clone of a map, with one more name set and fixed again, answers that name with the new value and
  -- every other as the map does.
  pub query-set-clone :
      (k j : Text) (v : V) (m : DependencyMap V) (d : Dict V)
      → m.impl ≡ some d
      → (c n : MutableDependencyMap V) × (clone m ≡ some c)
        × (set k v c ≡ some n)
        × (query j (fix n).0 ≡ (if text_eq k j then some (some v) else query j m))
  unfolding clone set query fix
  query-set-clone k j v m d h = (
    record { impl = some d },
    record { impl = some (put k v d) },
    ground arith,
    refl,
    ground (arith, lookup-put k j v d),
  )
