-- ===== src/Base/Ordered.antt =====
-- Texts in lexicographic order, and the sorted lists without repetition that stand for ordered sets.
use mathlib.Core.Path.{◌≡◌, refl}
use mathlib.Core.Bool.{Bool, true, false, ◌&&◌, ◌||◌}
use mathlib.Core.List.{List, [], ◌∷◌}
use native.Mathlib.Omega.{arith}
use boost_connector.Base.Tests.{◌==◌, ltb, if◌then◌else◌}
use boost_connector.Base.Lists.{All}
use boost_connector.Base.Texts.{Text, text_eq, text_eq_refl, text_eq_sound}

unfoldable pub text_lt : Text → Text → Bool
text_lt a [] = false
text_lt [] (y ∷ ys) = true
text_lt (x ∷ xs) (y ∷ ys) = ltb x y || ((x == y) && text_lt xs ys)

pub text_lt_irrefl : (a : Text) → text_lt a a ≡ false
unfolding text_lt
text_lt_irrefl [] = refl
text_lt_irrefl (x ∷ xs) = ground (arith, text_lt_irrefl xs)

pub text_lt_trans : (a b c : Text) → text_lt a b ≡ true → text_lt b c ≡ true → text_lt a c ≡ true
unfolding text_lt
text_lt_trans a [] c h k = cc
text_lt_trans a (y ∷ b) [] h k = cc
text_lt_trans [] (y ∷ b) (z ∷ c) h k = refl
text_lt_trans (x ∷ a) (y ∷ b) (z ∷ c) h k = ground (arith, text_lt_trans a b c)

pub text_lt_total : (a b : Text) → text_lt a b ≡ false → text_eq a b ≡ false → text_lt b a ≡ true
unfolding text_lt text_eq
text_lt_total [] [] h k = cc
text_lt_total [] (y ∷ b) h k = cc
text_lt_total (x ∷ a) [] h k = refl
text_lt_total (x ∷ a) (y ∷ b) h k = ground (arith, text_lt_total a b)

-- `std::set::insert`.
unfoldable pub set_insert : Text → List Text → List Text
set_insert k [] = k ∷ []
set_insert k (x ∷ xs) =
    if text_lt k x then k ∷ x ∷ xs else if text_eq k x then x ∷ xs else x ∷ set_insert k xs

unfoldable pub set_member : Text → List Text → Bool
set_member k [] = false
set_member k (x ∷ xs) = text_eq x k || set_member k xs

abbrev pub Above : Text → List Text → Type 0
Above a = All (λ x. text_lt a x ≡ true)

-- The order of a `std::set`.
abbrev pub IsOrdered : List Text → Type 0
IsOrdered [] = Unit
IsOrdered (x ∷ xs) = Above x xs × IsOrdered xs

pub set_member-insert :
    (k j : Text) (xs : List Text)
    → set_member j (set_insert k xs) ≡ (text_eq k j || set_member j xs)
unfolding set_insert set_member
set_member-insert k j [] = refl
set_member-insert k j (x ∷ xs) =
    ground (arith, set_member-insert k j xs, text_eq_sound k x, text_eq_refl k)

Above-trans : (a b : Text) (xs : List Text) → text_lt a b ≡ true → Above b xs → Above a xs
Above-trans a b [] h k = tt
Above-trans a b (x ∷ xs) h k = (text_lt_trans a b x h k.0, Above-trans a b xs h k.1)

Above-insert :
    (a k : Text) (xs : List Text) → text_lt a k ≡ true → Above a xs → Above a (set_insert k xs)
unfolding set_insert
Above-insert a k [] h b = (h, tt)
Above-insert a k (x ∷ xs) h b = ground (arith, Above-insert a k xs h b.1)

pub set_insert-IsOrdered : (k : Text) (xs : List Text) → IsOrdered xs → IsOrdered (set_insert k xs)
unfolding set_insert
set_insert-IsOrdered k [] h = (tt, tt)
set_insert-IsOrdered k (x ∷ xs) h = ground (
  arith,
  set_insert-IsOrdered k xs h.1,
  text_lt_total k x,
  Above-insert x k xs,
  Above-trans k x xs,
)
