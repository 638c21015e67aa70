-- ===== src/Examples/Values.antt =====
-- Runs of the property maps, the dependency maps, the lifetimes, the entity keys, the snapshots and the
-- digests.
use boost_connector.Base.{
  ℕ, ◌+◌, ◌*◌, ◌==◌, ◌↔◌, Text, codes, text_eq, Bool, true, false, some, ◌≡◌, refl, List, [], ◌∷◌,
  ◌++◌, arith, if◌then◌else◌,
}
use boost_connector.Property.Value.{
  PropertyValue, construct, query, is_void, assign, assign_self, to_ostream, hash_value, value_eq,
}
use boost_connector.Property.Equality.{query-construct, query-assign, hash_value-value_eq}
use boost_connector.Property.Map
use boost_connector.Property.Map.{
  PropertyMapLayer, PropertyMap, MutablePropertyMap, root, query_layer,
}
use boost_connector.Property.Layers.{set_all, last_set, query-fix-mutate}
use boost_connector.Property.Dependency
use boost_connector.Property.Dependency.{DependencyMap, MutableDependencyMap, query-set-clone}
use boost_connector.Entity.Lifetime
use boost_connector.Entity.Lifetime.{
  Implementation, IsBalanced, make_lifetime_ptr, copies, resets, make_lifetime_ptr-IsBalanced,
}
use boost_connector.Entity.Key
use boost_connector.Entity.Key.{
  EntityKey, Model, key_eq, SameKey, key_eq-SameKey, hash_value-key_eq,
}
use boost_connector.Util.Timestamp
use boost_connector.Entity.Snapshot.{
  Snapshot, equivalent, IsEquivalence, good, equivalent_symmetric, equivalent_transitive,
}
use boost_connector.Entity.Sha256Digest.{print, print_collides}

-- Stand-ins for the operations of the contained types: all objects are numbers.
abbrev size : ℕ → ℕ
size t = 8 * t

abbrev equal : ℕ → ℕ → ℕ → Bool
equal t x y = x == y

abbrev hash : ℕ → ℕ → ℕ
hash t x = 31 * x

abbrev show : ℕ → ℕ → Text
show t x = x ∷ []

equal-hash : (t x y : ℕ) → equal t x y ≡ true → hash t x ≡ hash t y
equal-hash t x y h = ground arith

equal_refl : (t x : ℕ) → equal t x x ≡ true
equal_refl t x = ground arith

queries_back :
    (query 5 (construct size equal hash show 5 7) ≡ some 7)
    × (is_void (construct size equal hash show 5 7) ≡ false)
    × (to_ostream size equal hash show (construct size equal hash show 5 7) ≡ 7 ∷ [])
    × (hash_value size equal hash show (construct size equal hash show 5 7) ≡ 217)
queries_back = query-construct size equal hash show 5 5 7

abbrev price : PropertyValue ℕ
price = PropertyValue.short 2 100

abbrev nothing : PropertyValue ℕ
nothing = PropertyValue.void

price-assign :
    (query 2 (assign nothing price).0 ≡ query 2 price)
    × (is_void (assign nothing price).1 ≡ true)
    × (query 2 (assign_self nothing) ≡ query 2 nothing)
price-assign = query-assign 2 nothing price

price-equal : value_eq size equal hash show price price ≡ true
unfolding value_eq
price-equal = refl

price_hashes : hash_value size equal hash show price ≡ hash_value size equal hash show price
price_hashes = hash_value-value_eq size equal hash show equal-hash price price price-equal

abbrev defaults : PropertyMapLayer ℕ
defaults = root ((codes "depth", 20) ∷ (codes "retries", 3) ∷ [])

abbrev settings : PropertyMap ℕ
settings = record { impl = some defaults }

abbrev changes : List (Text × ℕ)
changes = (codes "depth", 50) ∷ (codes "depth", 100) ∷ []

query-fix-mutate_example :
    (m : MutablePropertyMap ℕ) × (set_all changes (Map.mutate settings) ≡ some m)
    × ((j : Text) → Map.query j (Map.fix m).0 ≡ some (last_set j changes (query_layer j defaults)))
query-fix-mutate_example = query-fix-mutate changes settings defaults refl

abbrev services : DependencyMap ℕ
services = record { impl = some ((codes "venue", 1) ∷ []) }

clone_answers :
    (c n : MutableDependencyMap ℕ) × (Dependency.clone services ≡ some c)
    × (Dependency.set (codes "log") 2 c ≡ some n)
    × (Dependency.query (codes "venue") (Dependency.fix n).0 ≡ (
        if text_eq (codes "log") (codes "venue")
        then some (some 2)
        else Dependency.query (codes "venue") services))
clone_answers =
    query-set-clone (codes "log") (codes "venue") 2 services ((codes "venue", 1) ∷ []) refl

abbrev idle : Implementation
idle = record { started = 0; stopped = 0 }

make_lifetime_ptr-IsBalanced_example :
    IsBalanced 0 0 (Lifetime.run (copies ∷ resets ∷ resets ∷ []) (make_lifetime_ptr false idle))
make_lifetime_ptr-IsBalanced_example =
    make_lifetime_ptr-IsBalanced (copies ∷ resets ∷ resets ∷ []) idle

abbrev left : EntityKey ℕ
left = record { impl = some (record { address = 1; type = 4; model = 9 }) }

abbrev right : EntityKey ℕ
right = record { impl = some (record { address = 2; type = 4; model = 9 }) }

left-Coherent : Key.Coherent equal hash ◌+◌ left.impl right.impl
left-Coherent = λ h. absurd (omega arith)

key_eq-SameKey_example :
    (key_eq equal hash ◌+◌ left right ≡ true) ↔ SameKey equal hash ◌+◌ left.impl right.impl
key_eq-SameKey_example =
    key_eq-SameKey equal hash ◌+◌ equal_refl equal-hash left right left-Coherent

left-equal : key_eq equal hash ◌+◌ left right ≡ true
unfolding key_eq
left-equal = refl

same_hashes : Key.hash_value equal hash ◌+◌ left ≡ Key.hash_value equal hash ◌+◌ right
same_hashes =
    hash_value-key_eq equal hash ◌+◌ equal_refl equal-hash left right left-Coherent left-equal

equal-IsEquivalence : IsEquivalence equal
equal-IsEquivalence = record {
  reflexive = λ t x. ground arith;
  symmetric = λ t x y h. ground arith;
  transitive = λ t x y z h k. ground arith;
}

abbrev snap : ℕ → Snapshot ℕ
snap time = record {
  type = 1;
  status = good;
  source = codes "ftx";
  timestamp = record { impl = Timestamp.pos time };
  contents = 6;
}

snaps_symmetric :
    (equivalent equal (snap 1) (snap 1) ≡ true)
    × (equivalent equal (snap 1) (snap 2) ≡ equivalent equal (snap 2) (snap 1))
snaps_symmetric = equivalent_symmetric equal equal-IsEquivalence (snap 1) (snap 2)

snaps-equivalent : (s t : ℕ) → equivalent equal (snap s) (snap t) ≡ true
unfolding equivalent text_eq
snaps-equivalent s t = refl

snaps_transitive : equivalent equal (snap 1) (snap 3) ≡ true
snaps_transitive =
    equivalent_transitive equal equal-IsEquivalence (snap 1) (snap 2) (snap 3)
      (snaps-equivalent 1 2) (snaps-equivalent 2 3)

-- The byte `ab` is printed with its digits one place off.
print_ab : print (171 ∷ []) ≡ codes "0a"
unfolding print
print_ab = refl

print_collides_example : print ([] ++ (16 * 2 + 10) ∷ []) ≡ print ([] ++ (16 * 2) ∷ [])
print_collides_example = print_collides [] [] 2 (omega arith)
