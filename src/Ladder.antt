-- ===== src/Ladder.antt =====
-- The bid side of an order book: src/types/bid_ladder.cpp and
-- include/boost/connector/types/bid_ladder.hpp, with ops/price_greater.hpp and
-- types/orderbook_level.hpp. Prices and depths are doubles: their comparisons are parameters.
pub mod Order
pub mod Place
pub mod Sorted
pub mod Lookup
pub mod Bounds
pub mod Reference
use boost_connector.Base.{
  ℕ, Text, codes, zero, suc, ◌+◌, Bool, true, false, Option, none, some, List, [], ◌∷◌, ◌++◌,
  length, get_elem?, ltb, if◌then◌else◌,
}

pub record Level (P Q : Type 0) : Type 0 where
  pub price : P
  pub depth : Q

-- The best bid first.
pub record BidLadder (P Q : Type 0) : Type 0 where
  pub levels : List (Level P Q)
  pub max_levels : ℕ

abbrev pub default_max_levels : ℕ
default_max_levels = 1024

module _ {P Q : Type 0} where
  unfoldable pub make : BidLadder P Q
  make = record { levels = []; max_levels = default_max_levels }

  unfoldable pub size : BidLadder P Q → ℕ
  size l = length l.levels

  -- `none` where the assertion on the index fails.
  unfoldable pub at : ℕ → BidLadder P Q → Option (Level P Q)
  at i l = get_elem? l.levels i

  abbrev pub pop_back : List (Level P Q) → List (Level P Q)
  pop_back [] = []
  pop_back (x ∷ []) = []
  pop_back (x ∷ y ∷ ls) = x ∷ pop_back (y ∷ ls)

  -- `while (levels.size() > max_levels) levels.pop_back();` with fuel.
  unfoldable pub trim : ℕ → ℕ → List (Level P Q) → List (Level P Q)
  trim zero max ls = ls
  trim (suc f) max ls =
      let rest = trim f max (pop_back ls) in if ltb max (length ls) then rest else ls

-- `>` and `==` of prices, and the test of a depth against 0.0.
module _ {P Q : Type 0} (gt eq : P → P → Bool) (is_zero : Q → Bool) where
  unfoldable pub price_greater : Level P Q → P → Bool
  price_greater l p = gt l.price p

  -- `std::lower_bound`, by its contract on a vector in order: the levels before the first that is not
  -- above the price, and the others. The binary search may give another place where the levels are in disorder.
  unfoldable pub lower_bound : P → List (Level P Q) → List (Level P Q) × List (Level P Q)
  unfolding price_greater
  lower_bound p [] = ([], [])
  lower_bound p (x ∷ ls) =
      let (before, after) = lower_bound p ls in
      if price_greater x p then (x ∷ before, after) else ([], x ∷ ls)

  abbrev pub insert_at : P → Q → ℕ → List (Level P Q) × List (Level P Q) → List (Level P Q)
  insert_at p d max (before, after) =
      let ls = before ++ record { price = p; depth = d } ∷ after in trim (length ls) max ls

  unfoldable pub update_at : P → Q → ℕ → List (Level P Q) → List (Level P Q) → List (Level P Q)
  unfolding trim
  update_at p d max before [] = insert_at p d max (before, [])
  update_at p d max before (x ∷ after) =
      if eq x.price p
      then (if is_zero d then before ++ after else before ++ record x { depth = d } ∷ after)
      else insert_at p d max (before, x ∷ after)

  unfoldable pub set : P → Q → BidLadder P Q → BidLadder P Q
  unfolding lower_bound update_at
  set p d l =
      let (before, after) = lower_bound p l.levels in
      record l { levels = update_at p d l.max_levels before after }

-- `get_price_value` of a level, and the comparison by it with `<` of prices.
unfoldable pub get_price_value : {P : Type 0} {Q : Type 0} → Level P Q → P
get_price_value l = l.price

unfoldable pub price_less : {P : Type 0} {Q : Type 0} → (P → P → Bool) → Level P Q → P → Bool
unfolding get_price_value
price_less lt l p = lt (get_price_value l) p

-- `operator<<` of a level, with the printing of doubles as parameters.
unfoldable pub print_level :
    {P : Type 0} {Q : Type 0} → (P → Text) → (Q → Text) → Level P Q → Text → Text
print_level print_price print_depth l os =
    os ++ print_depth l.depth ++ codes "@" ++ print_price l.price
