-- ===== src/AnySet/Inherited.antt =====
-- Values in the parents of a layer: example/spot-book/main.cpp.
use boost_connector.Base.{ℕ, none, some, [], ◌==◌, if◌then◌else◌, ◌≡◌, refl, arith}
use boost_connector.AnySet.{
  AnySetLayer, over, MutableAnySet, query_layer, require_layer, set_layer, query, require, set,
  mutate, find-put, find,
}

module _ {V : Type 0} where
  -- A set that is derived from another answers a query for the type that was set with the new value, and for
  -- every other as its source does; but requiring any other type throws, also where the query finds a value.
  pub query-require :
      (t u : ℕ) (x : V) (l : AnySetLayer V)
      → (m : MutableAnySet V) × (set t x (mutate (record { impl = some l })) ≡ some m)
        × (query u m ≡ some (if t == u then some x else query_layer u l))
        × (require u m ≡ some (if t == u then some x else none))
  unfolding set mutate query require find set_layer query_layer require_layer
  query-require t u x l = (
    record { impl = some (set_layer t x (over l [])) },
    refl,
    ground (arith, find-put t u x []),
    ground (arith, find-put t u x []),
  )
