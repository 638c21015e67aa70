-- ===== src/AnySet.antt =====
-- The sets of values by type of example/spot-book/main.cpp. A type is its index and a value of any type an
-- element of `V`; a constant layer is never written to, and a pointer to it is the layer. The outer `none` of
-- a result is a null pointer that is followed.
pub mod Inherited
use boost_connector.Base.{
  ℕ, Bool, true, false, Option, none, some, ◌>>=◌, List, [], ◌∷◌, ◌==◌, ==_iff, if◌then◌else◌, ◌≡◌,
  refl, arith,
}

abbrev pub TypeMap : Type 0 → Type 0
TypeMap V = List (ℕ × V)

-- A layer without a parent, and one over its parent.
pub data AnySetLayer (V : Type 0) : Type 0 where
  base : TypeMap V → AnySetLayer V
  over : AnySetLayer V → TypeMap V → AnySetLayer V

pub record MutableAnySet (V : Type 0) : Type 0 where
  pub impl : Option (AnySetLayer V)

pub record AnySet (V : Type 0) : Type 0 where
  pub impl : Option (AnySetLayer V)

module _ {V : Type 0} where
  unfoldable pub find : ℕ → TypeMap V → Option V
  find t [] = none
  find t ((u, x) ∷ m) = if u == t then some x else find t m

  unfoldable pub put : ℕ → V → TypeMap V → TypeMap V
  put t x [] = (t, x) ∷ []
  put t x ((u, y) ∷ m) = if u == t then (u, x) ∷ m else (u, y) ∷ put t x m

  abbrev pub own : AnySetLayer V → TypeMap V
  own (base m) = m
  own (over p m) = m

  abbrev pub or_else : Option V → Option V → Option V
  or_else none b = b
  or_else (some x) b = some x

  unfoldable pub query_layer : ℕ → AnySetLayer V → Option V
  unfolding find
  query_layer t (base m) = find t m
  query_layer t (over p m) = or_else (find t m) (query_layer t p)

  -- `none` is the exception.
  unfoldable pub require_layer : ℕ → AnySetLayer V → Option V
  unfolding find
  require_layer t l = find t (own l)

  unfoldable pub set_layer : ℕ → V → AnySetLayer V → AnySetLayer V
  unfolding put
  set_layer t x (base m) = base (put t x m)
  set_layer t x (over p m) = over p (put t x m)

  unfoldable pub make : MutableAnySet V
  make = record { impl = some (base []) }

  unfoldable pub set : ℕ → V → MutableAnySet V → Option (MutableAnySet V)
  unfolding set_layer
  set t x s = do l ← s.impl; some (record { impl = some (set_layer t x l) })

  unfoldable pub query : ℕ → MutableAnySet V → Option (Option V)
  unfolding query_layer
  query t s = do l ← s.impl; some (query_layer t l)

  unfoldable pub require : ℕ → MutableAnySet V → Option (Option V)
  unfolding require_layer
  require t s = do l ← s.impl; some (require_layer t l)

  -- The layer is moved out of its source.
  unfoldable pub fix : MutableAnySet V → AnySet V × MutableAnySet V
  fix s = (record { impl = s.impl }, record { impl = none })

  abbrev layer_over : Option (AnySetLayer V) → AnySetLayer V
  layer_over none = base []
  layer_over (some p) = over p []

  unfoldable pub mutate : AnySet V → MutableAnySet V
  mutate s = record { impl = some (layer_over s.impl) }

  pub find-put :
      (t u : ℕ) (x : V) (m : TypeMap V) → find u (put t x m) ≡ (if t == u then some x else find u m)
  unfolding find put
  find-put t u x [] = refl
  find-put t u x ((v, y) ∷ m) = ground (arith, find-put t u x m, ==_iff v t, ==_iff v u, ==_iff t u)
