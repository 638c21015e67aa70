-- ===== src/Util/Enumerators.antt =====
-- The names of described enumerations: include/boost/connector/util/describe_operators.hpp. An enumeration is
-- the list of its enumerators' values and names, and a value a number.
use mathlib.Core.Option.{some-injective}
use boost_connector.Base.{
  ℕ, zero, suc, Text, codes, ◌==◌, ==_iff, some, ◌≡◌, ◌≢◌, refl, sym, ap, ◌∙◌, List, [], ◌∷◌, ◌++◌,
  All, All-get_elem?, get_elem?, subst, if◌then◌else◌, arith,
}

abbrev pub Enumerators : Type 0
Enumerators = List (ℕ × Text)

-- `visit_descriptor` with the name of each enumerator that has the value, and what the visitor changes.
unfoldable pub visit_descriptor : {S : Type 0} → Enumerators → (Text → S → S) → ℕ → S → S
visit_descriptor [] f e s = s
visit_descriptor ((v, name) ∷ ds) f e s = visit_descriptor ds f e (if e == v then f name s else s)

-- `operator<<`
unfoldable pub output : Enumerators → ℕ → Text → Text
unfolding visit_descriptor
output ds e os = visit_descriptor ds (λ name s. s ++ name) e os

unfoldable pub to_string : Enumerators → ℕ → Text
unfolding visit_descriptor
to_string ds e = visit_descriptor ds (λ name r. name) e (codes "(unnamed)")

abbrev pub Absent : ℕ → Enumerators → Type 0
Absent e ds = All (λ d. d.0 ≢ e) ds

-- No two enumerators have one value.
abbrev pub Distinct : Enumerators → Type 0
Distinct [] = Unit
Distinct (d ∷ ds) = Absent d.0 ds × Distinct ds

test_other : {S : Type 0} (a b : ℕ) (x y : S) → b ≢ a → (if a == b then x else y) ≡ y
test_other a b x y ne = ground (arith, ==_iff a b)

test_same : {S : Type 0} (a b : ℕ) (x y : S) → b ≡ a → (if a == b then x else y) ≡ x
test_same a b x y e = ground (arith, ==_iff a b)

visit_descriptor-Absent :
    {S : Type 0} (ds : Enumerators) (f : Text → S → S) (e : ℕ) (s : S)
    → Absent e ds
    → visit_descriptor ds f e s ≡ s
unfolding visit_descriptor
visit_descriptor-Absent [] f e s h = refl
visit_descriptor-Absent ((v, name) ∷ ds) f e s h =
    ap (visit_descriptor ds f e) (test_other e v (f name s) s h.0)
    ∙ visit_descriptor-Absent ds f e s h.1

visit_descriptor_found :
    {S : Type 0} (ds : Enumerators) (f : Text → S → S) (e : ℕ) (n : Text) (i : ℕ) (s : S)
    → Distinct ds
    → get_elem? ds i ≡ some (e, n)
    → visit_descriptor ds f e s ≡ f n s
unfolding visit_descriptor
visit_descriptor_found [] f e n i s d h = cc
visit_descriptor_found ((v, name) ∷ ds) f e n zero s d h =
    let here : (v, name) ≡ (e, n) = some-injective _ _ h in
    ap (visit_descriptor ds f e) (test_same e v (f name s) s (ap (λ p. p.0) here))
    ∙ visit_descriptor-Absent ds f e (f name s) (subst (λ x. Absent x ds) (ap (λ p. p.0) here) d.0)
    ∙ ap (λ p. f p.1 s) here
visit_descriptor_found ((v, name) ∷ ds) f e n (suc i) s d h =
    ap (visit_descriptor ds f e) (
      test_other e v (f name s) s
        (λ same. All-get_elem? (λ x. x.0 ≢ v) ds i (e, n) h d.0 (sym same)))
    ∙ visit_descriptor_found ds f e n i s d.1 h

-- In an enumeration without repeated values each enumerator is printed as its name by both operators.
pub output-to_string :
    (ds : Enumerators) (e : ℕ) (n : Text) (i : ℕ) (os : Text)
    → Distinct ds
    → get_elem? ds i ≡ some (e, n)
    → (to_string ds e ≡ n) × (output ds e os ≡ os ++ n)
unfolding to_string output
output-to_string ds e n i os d h = (
  visit_descriptor_found ds (λ name r. name) e n i (codes "(unnamed)") d h,
  visit_descriptor_found ds (λ name s. s ++ name) e n i os d h,
)

-- A value that is no enumerator has the name "(unnamed)", and is printed as nothing.
pub output-unnamed :
    (ds : Enumerators) (e : ℕ) (os : Text)
    → Absent e ds
    → (to_string ds e ≡ codes "(unnamed)") × (output ds e os ≡ os)
unfolding to_string output
output-unnamed ds e os h = (
  visit_descriptor-Absent ds (λ name r. name) e (codes "(unnamed)") h,
  visit_descriptor-Absent ds (λ name s. s ++ name) e os h,
)
