-- ===== src/Async/Buffer/Specialised.antt =====
-- The specialisation for capacity 1 against the general template at that capacity.
use boost_connector.Base.{◌≡◌, Option, none, some, List, [], ◌∷◌, arith}
use boost_connector.Async.Buffer.Circular
use boost_connector.Async.Buffer.Circular.{Circular}
use boost_connector.Async.Buffer.Single
use boost_connector.Async.Buffer.Single.{Single}

module _ {ℓ} {A : Type ℓ} where
  abbrev slot_list : Option A → List A
  slot_list none = []
  slot_list (some a) = a ∷ []

  -- The general buffer that a single slot stands for.
  abbrev pub general : Single A → Circular A
  general s = record { capacity = 1; buffer = slot_list s.slot; cv = s.cv }

  -- On every state each call of the specialisation does what the general template does at capacity 1:
  -- the same buffer, the same waits, the same result of `pop`.
  pub specialised :
      (s : Single A) (a : A)
      → (general (Single.push a s) ≡ Circular.push a (general s))
        × (general (Single.clear s) ≡ Circular.clear (general s))
        × ((Single.pop s).0 ≡ (Circular.pop (general s)).0)
        × (general (Single.pop s).1 ≡ (Circular.pop (general s)).1)
  unfolding Single.push Single.clear Single.pop Circular.push Circular.clear Circular.pop
  specialised s a = (ground arith, ground arith, ground arith, ground arith)
