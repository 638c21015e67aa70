-- ===== src/Ladder/Order.antt =====
-- What the ladder needs of the comparisons of prices: they hold of all doubles but NaN.
use boost_connector.Base.{Bool, true, false, not, ◌&&◌, ◌≡◌, ◌⊎◌}

pub record IsOrder {P : Type 0} (gt eq : P → P → Bool) : Type 0 where
  pub irreflexive : (a : P) → gt a a ≡ false
  pub transitive : (a b c : P) → gt a b ≡ true → gt b c ≡ true → gt a c ≡ true
  pub comparable : (a b c : P) → gt a b ≡ true → (gt a c ≡ true) ⊎ (gt c b ≡ true)
  pub equal : (a b : P) → eq a b ≡ (not (gt a b) && not (gt b a))
