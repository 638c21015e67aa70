-- ===== src/Property/Layers.antt =====
-- Maps derived from other maps: include/boost/connector/property_map.hpp.
use boost_connector.Base.{
  Text, text_eq, Option, some, ◌>>=◌, ◌≡◌, refl, ap, ◌∙◌, List, [], ◌∷◌, if◌then◌else◌, arith,
}
use boost_connector.Base.Dict.{lookup, lookup-put}
use boost_connector.Property.Map.{
  PropertyMapLayer, root, over, PropertyMap, MutablePropertyMap, query_layer, set_layer, query, set,
  mutate, fix,
}

module _ {V : Type 0} where
  query_layer-set :
      (k j : Text) (v : V) (l : PropertyMapLayer V)
      → query_layer j (set_layer k v l) ≡ (if text_eq k j then some v else query_layer j l)
  unfolding query_layer set_layer
  query_layer-set k j v (root m) = lookup-put k j v m
  query_layer-set k j v (over parent m) = ground (arith, lookup-put k j v m)

  -- Successive calls of `set`.
  unfoldable pub set_all : List (Text × V) → MutablePropertyMap V → Option (MutablePropertyMap V)
  set_all [] m = some m
  set_all ((k, v) ∷ us) m = set k v m >>= set_all us

  -- The value that the last of the calls for a key has set, or else another.
  abbrev pub last_set : Text → List (Text × V) → Option V → Option V
  last_set j [] below = below
  last_set j ((k, v) ∷ us) below = last_set j us (if text_eq k j then some v else below)

  set_all-layer :
      (us : List (Text × V)) (l : PropertyMapLayer V)
      → (l' : PropertyMapLayer V) × (set_all us (record { impl = some l })
          ≡ some (record { impl = some l' }))
        × ((j : Text) → query_layer j l' ≡ last_set j us (query_layer j l))
  unfolding set_all set
  set_all-layer [] l = (l, refl, λ j. refl)
  set_all-layer ((k, v) ∷ us) l =
      let (l', e, h) = set_all-layer us (set_layer k v l) in
      (l', e, λ j. h j ∙ ap (last_set j us) (query_layer-set k j v l))

  -- A map that is mutated from a source, written to and fixed answers each query by the last value
  -- written for the key, and where there is none, as the source does.
  pub query-fix-mutate :
      (us : List (Text × V)) (source : PropertyMap V) (l : PropertyMapLayer V)
      → source.impl ≡ some l
      → (m : MutablePropertyMap V) × (set_all us (mutate source) ≡ some m)
        × ((j : Text) → query j (fix m).0 ≡ some (last_set j us (query_layer j l)))
  unfolding mutate fix query
  query-fix-mutate us source l h =
      let (l', e, q) = set_all-layer us (over l []) in
      (record { impl = some l' }, rw h e, λ j. ap some (unfold query_layer lookup in q j))
