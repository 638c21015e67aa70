-- ===== src/Entity/Key.antt =====
-- include/boost/connector/entity/entity_key.hpp and src/entity/entity_key.cpp. The shared model is its address,
-- the type of the stored object and the object.
use boost_connector.Base.{
  ℕ, ◌↔◌, ◌≡◌, refl, Bool, true, false, ◌&&◌, Option, none, some, ◌==◌, if◌then◌else◌, arith,
}

pub record Model (V : Type 0) : Type 0 where
  pub address : ℕ
  pub type : ℕ
  pub model : V

-- An empty key has no model.
pub record EntityKey (V : Type 0) : Type 0 where
  pub impl : Option (Model V)

abbrev model_of : {V : Type 0} → ℕ → Option (Model V) → Option V
model_of t none = none
model_of t (some m) = if m.type == t then some m.model else none

-- `query<T>`
unfoldable pub query : {V : Type 0} → ℕ → EntityKey V → Option V
query t k = model_of t k.impl

-- The operations of the stored types, and `boost::hash_combine` of a type and a hash.
module _ {V : Type 0} (equal_to : ℕ → V → V → Bool) (hash : ℕ → V → ℕ) (combine : ℕ → ℕ → ℕ) where
  unfoldable pub test_equal : Model V → Model V → Bool
  test_equal l r = (l.type == r.type) && equal_to l.type l.model r.model

  unfoldable pub compute_hash : Model V → ℕ
  compute_hash m = combine m.type (hash m.type m.model)

  eq_impl : Option (Model V) → Option (Model V) → Bool
  unfolding test_equal
  eq_impl none none = true
  eq_impl none (some r) = false
  eq_impl (some l) none = false
  eq_impl (some l) (some r) = if l.address == r.address then true else test_equal l r

  -- `operator==`: first the pointers are compared.
  unfoldable pub key_eq : EntityKey V → EntityKey V → Bool
  unfolding eq_impl
  key_eq l r = eq_impl l.impl r.impl

  hash_impl : Option (Model V) → ℕ
  unfolding compute_hash
  hash_impl none = 0
  hash_impl (some m) = compute_hash m

  unfoldable pub hash_value : EntityKey V → ℕ
  unfolding hash_impl
  hash_value k = hash_impl k.impl

  -- Two models at one address are one object.
  abbrev pub Coherent : Option (Model V) → Option (Model V) → Type 0
  Coherent (some l) (some r) = l.address ≡ r.address → (l.type ≡ r.type) × (l.model ≡ r.model)
  Coherent _ _ = Unit

  -- What the key promises: both are empty, or both hold objects of one type that are equal.
  abbrev pub SameKey : Option (Model V) → Option (Model V) → Type 0
  SameKey none none = Unit
  SameKey (some l) (some r) = (l.type ≡ r.type) × (equal_to l.type l.model r.model ≡ true)
  SameKey _ _ = ⊥

  module _ (reflexive : (t : ℕ) (x : V) → equal_to t x x ≡ true)
      (lawful : (t : ℕ) (x y : V) → equal_to t x y ≡ true → hash t x ≡ hash t y) where
    key_eq-impl :
        (l r : Option (Model V))
        → Coherent l r
        → ((eq_impl l r ≡ true) ↔ SameKey l r) × (eq_impl l r ≡ true → hash_impl l ≡ hash_impl r)
    unfolding eq_impl hash_impl
    key_eq-impl none none c = (((λ h. tt), (λ h. refl)), (λ h. refl))
    key_eq-impl none (some r) c = (((λ h. cc), (λ h. absurd h)), (λ h. cc))
    key_eq-impl (some l) none c = (((λ h. cc), (λ h. absurd h)), (λ h. cc))
    key_eq-impl (some l) (some r) c = (
      ((λ h. ground (arith, reflexive l.type l.model)), (λ h. ground arith)),
      (λ h. ground (arith, lawful l.type l.model r.model)),
    )

    -- Keys compare equal exactly if both are empty or hold equal objects of one type, the shortcut on
    -- pointers included, where two models at one address are one object.
    pub key_eq-SameKey :
        (l r : EntityKey V) → Coherent l.impl r.impl → (key_eq l r ≡ true) ↔ SameKey l.impl r.impl
    unfolding key_eq
    key_eq-SameKey l r c = (key_eq-impl l.impl r.impl c).0

    -- Keys that compare equal have equal hashes, under the same condition.
    pub hash_value-key_eq :
        (l r : EntityKey V)
        → Coherent l.impl r.impl
        → key_eq l r ≡ true
        → hash_value l ≡ hash_value r
    unfolding key_eq hash_value
    hash_value-key_eq l r c h = (key_eq-impl l.impl r.impl c).1 h
