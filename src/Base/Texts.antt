-- ===== src/Base/Texts.antt =====
-- Texts as lists of bytes.
use Prim.Native.Nat.{ℕ}
use Prim.Native.Char.{code}
use Prim.Native.String.{String}
use mathlib.Core.Path.{◌≡◌, refl}
use mathlib.Core.Logic.{◌↔◌}
use mathlib.Core.Bool.{Bool, true, false, ◌&&◌}
use mathlib.Core.List.{List, [], ◌∷◌, ◌++◌}
use native.Mathlib.Omega.{arith}
use boost_connector.Base.Tests.{◌==◌, if◌then◌else◌}
use boost_connector.Base.Lists.{All}

abbrev pub Text : Type 0
Text = List ℕ

-- The bytes of an ASCII literal.
abbrev pub codes : String → Text
codes String.[] = []
codes (String.◌∷◌ c s) = code c ∷ codes s

unfoldable pub text_eq : Text → Text → Bool
text_eq [] [] = true
text_eq (x ∷ xs) (y ∷ ys) = (x == y) && text_eq xs ys
text_eq _ _ = false

pub text_eq_sound : (a b : Text) → text_eq a b ≡ true → a ≡ b
unfolding text_eq
text_eq_sound [] [] h = refl
text_eq_sound (x ∷ xs) (y ∷ ys) h = ground (arith, text_eq_sound xs ys)
text_eq_sound [] (y ∷ ys) h = cc
text_eq_sound (x ∷ xs) [] h = cc

pub text_eq_refl : (a : Text) → text_eq a a ≡ true
unfolding text_eq
text_eq_refl [] = refl
text_eq_refl (x ∷ xs) = ground (arith, text_eq_refl xs)

pub text_eq_iff : (a b : Text) → (text_eq a b ≡ true) ↔ (a ≡ b)
text_eq_iff a b = (text_eq_sound a b, λ e. rw e (text_eq_refl b))

-- The text is empty or begins with a character outside the class.
abbrev pub Stops : (ℕ → Bool) → Text → Type 0
Stops p [] = Unit
Stops p (c ∷ s) = p c ≡ false

abbrev pub Within : (ℕ → Bool) → Text → Type 0
Within p = All (λ c. p c ≡ true)

-- The longest prefix in a class of characters, and what follows it.
unfoldable pub span : (ℕ → Bool) → Text → Text × Text
span p [] = ([], [])
span p (c ∷ s) = let (a, b) = span p s in if p c then (c ∷ a, b) else ([], c ∷ s)

pub span-append : (p : ℕ → Bool) (a b : Text) → Within p a → Stops p b → span p (a ++ b) ≡ (a, b)
unfolding span
span-append p [] [] h s = refl
span-append p [] (c ∷ b) h s = ground arith
span-append p (c ∷ a) b h s = ground (arith, span-append p a b h.1 s)

pub span-all : (p : ℕ → Bool) (a : Text) → Within p a → span p a ≡ (a, [])
unfolding span
span-all p [] h = refl
span-all p (c ∷ a) h = ground (arith, span-all p a h.1)

pub span-Within : (p : ℕ → Bool) (s : Text) → Within p (span p s).0
unfolding span
span-Within p [] = tt
span-Within p (c ∷ s) = ground (arith, span-Within p s)
