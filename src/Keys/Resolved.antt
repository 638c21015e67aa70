-- ===== src/Keys/Resolved.antt =====
-- Keys whose paths lead to values: src/entity/mutable_key.cpp.
use mathlib.Core.Option.{some-injective}
use boost_connector.Base.{
  Text, text_eq, set_insert, set_member, set_member-insert, IsOrdered, set_insert-IsOrdered, Bool,
  ◌||◌, some, >>=-eq-some, ◌≡◌, refl, ap, subst, ◌∙◌, List, [], ◌∷◌, ◌++◌, All, arith,
}
use boost_connector.Json.{Value}
use boost_connector.Json.Path.{dissect_path}
use boost_connector.Json.Path.Canonical.{normalise_idempotent}
use boost_connector.Json.Find.{find_segments, find_path}
use boost_connector.Json.Digest.{update_sha256}
use boost_connector.Keys.{MutableKey, ImmutableKey, normalise, use_path, mutate, hashed, fix}

-- The path leads to a value.
abbrev pub Leads : Value → Text → Type 0
Leads v p = (u : Value) × (find_path p v ≡ some u)

-- The index is in order, and each of its paths leads to a value.
pub record IsResolved (v : Value) (index : List Text) : Type 0 where
  pub ordered : IsOrdered index
  pub leads : All (Leads v) index

Leads-insert :
    (v : Value) (k : Text) (xs : List Text)
    → Leads v k
    → All (Leads v) xs
    → All (Leads v) (set_insert k xs)
unfolding set_insert
Leads-insert v k [] h b = (h, tt)
Leads-insert v k (x ∷ xs) h b = ground (arith, Leads-insert v k xs h b.1)

find_path-normalise :
    (p : Text) (v : Value) → find_path (normalise p) v ≡ find_segments (dissect_path p) v
unfolding find_path normalise
find_path-normalise p v = ap (λ s. find_segments s v) (normalise_idempotent p).0

-- What a use of a path has done when it gives a value and a key.
abbrev Used : Text → MutableKey → Value × MutableKey → Type 0
Used p k (u, k') =
    (find_path (normalise p) k'.value ≡ some u)
    × (k'.value ≡ k.value)
    × ((q : Text) → set_member q k'.index ≡ (text_eq (normalise p) q || set_member q k.index))
    × IsResolved k'.value k'.index

-- A use that succeeds puts the normal form of its path into the index, takes nothing out, keeps the
-- document, and returns the value that the indexed path leads to; all paths of the index still lead
-- to values.
pub use_path-IsResolved :
    (p : Text) (k : MutableKey) (u : Value) (k' : MutableKey)
    → use_path p k ≡ some (u, k')
    → IsResolved k.value k.index
    → (find_path (normalise p) k'.value ≡ some u)
      × (k'.value ≡ k.value)
      × ((q : Text) → set_member q k'.index ≡ (text_eq (normalise p) q || set_member q k.index))
      × IsResolved k'.value k'.index
unfolding use_path
use_path-IsResolved p k u k' h r =
    let (ref, found, rest) = >>=-eq-some (find_segments (dissect_path p) k.value) _ h in
    let there : find_path (normalise p) k.value ≡ some ref =
      find_path-normalise p k.value ∙ found in
    subst (Used p k) (some-injective _ _ rest) (
      there,
      refl,
      (λ q. set_member-insert (normalise p) q k.index),
      record {
        ordered = set_insert-IsOrdered (normalise p) k.index r.ordered;
        leads = Leads-insert k.value (normalise p) k.index (ref, there) r.leads;
      },
    )

hashed-All :
    (v : Value) (index : List Text) → All (Leads v) index → (t : Text) × (hashed index v ≡ some t)
unfolding hashed
hashed-All v [] h = ([], refl)
hashed-All v (p ∷ ps) h =
    let (t, e) = hashed-All v ps h.1 in (p ++ (update_sha256 h.0.0 ++ t), rw (h.0.1, e))

-- A key whose paths lead to values can be fixed, and its document and index survive the way to an
-- immutable key and back.
pub fix-mutate :
    (sha256 : Text → Text) (json_eq : Value → Value → Bool) (k : MutableKey)
    → IsResolved k.value k.index
    → (f : ImmutableKey) × (fix sha256 json_eq k ≡ some f) × (mutate f ≡ k)
unfolding fix mutate
fix-mutate sha256 json_eq k r =
    let (t, e) = hashed-All k.value k.index r.leads in
    (record { value = k.value; index = k.index; digest = sha256 t }, rw e, refl)
