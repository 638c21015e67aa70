-- ===== src/Examples/Printing.antt =====
-- Runs of the described types, the times, the keys' printing and the sets by type.
use boost_connector.Base.{
  ℕ, ◌+◌, Text, codes, Bool, true, none, some, ◌≡◌, ◌↔◌, refl, [], ◌∷◌, ◌++◌, ◌==◌, ==_iff,
  if◌then◌else◌, arith,
}
use boost_connector.Util.Describe
use boost_connector.Util.Describe.{
  Described, SameShape, joined, listed, output-listed, equal_to-hash_value,
}
use boost_connector.Util.Enumerators
use boost_connector.Util.Enumerators.{output-to_string}
use boost_connector.Util.Timestamp
use boost_connector.Util.Timestamp.{TimestampType, pos, negsuc, equal_to-nanos}
use boost_connector.Entity.Snapshot.{statuses}
use boost_connector.AnySet
use boost_connector.AnySet.{MutableAnySet, AnySetLayer, base}
use boost_connector.AnySet.Inherited.{query-require}

abbrev pair : Described ℕ
pair = record { bases = []; members = 1 ∷ 2 ∷ [] }

abbrev print : ℕ → Text
print n = if n == 1 then codes "one" else codes "two"

output-listed_example :
    Describe.output print pair [] ≡ [] ++ joined print [] ++ listed print (1 ∷ 2 ∷ [])
output-listed_example = output-listed print pair []

abbrev equal : ℕ → ℕ → Bool
equal a b = a == b

pair-equal : Describe.equal_to equal (λ n. n) ◌+◌ pair pair ≡ true
unfolding Describe.equal_to
pair-equal = refl

pair_hashes :
    Describe.hash_value equal (λ n. n) ◌+◌ pair ≡ Describe.hash_value equal (λ n. n) ◌+◌ pair
pair_hashes =
    equal_to-hash_value equal (λ n. n) ◌+◌ (λ x y h. (==_iff x y).0 h) pair pair
      (record { bases_len = refl; members_len = refl }) pair-equal

names_not_ready :
    (Enumerators.to_string statuses 1 ≡ codes "not_ready")
    × (Enumerators.output statuses 1 [] ≡ [] ++ codes "not_ready")
names_not_ready =
    output-to_string statuses 1 (codes "not_ready") 1 []
      (((λ e. omega arith), ((λ e. omega arith), tt)), (((λ e. omega arith), tt), (tt, tt))) refl

abbrev before_epoch : TimestampType
before_epoch = record { impl = negsuc 0 }

before_epoch_equal :
    (Timestamp.equal_to before_epoch before_epoch ≡ true)
    ↔ (Timestamp.nanos before_epoch ≡ Timestamp.nanos before_epoch)
before_epoch_equal = equal_to-nanos before_epoch before_epoch (omega arith) (omega arith)

abbrev layer : AnySetLayer ℕ
layer = base ((7, 70) ∷ [])

query-require_example :
    (m : MutableAnySet ℕ) × (AnySet.set 8 80 (AnySet.mutate (record { impl = some layer }))
      ≡ some m)
    × (AnySet.query 7 m ≡ some (if 8 == 7 then some 80 else AnySet.query_layer 7 layer))
    × (AnySet.require 7 m ≡ some (if 8 == 7 then some 80 else none))
query-require_example = query-require 8 7 80 layer
