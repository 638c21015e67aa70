-- ===== src/Keys/Printing.antt =====
-- The printing of keys: `operator<<` of src/entity/key_base.cpp.
use boost_connector.Base.{
  Text, codes, Option, some, ◌>>=◌, ◌≡◌, refl, sym, ap, ◌∙◌, List, [], ◌∷◌, ◌++◌, All,
}
use mathlib.Core.List.{append_assoc, append-nil}
use boost_connector.Json.{Value}
use boost_connector.Json.Find.{find_path}
use boost_connector.Keys.{MutableKey}
use boost_connector.Keys.Resolved.{Leads, IsResolved}
use boost_connector.Util.Describe.{listed}

-- The printing of JSON values is not part of the program.
module _ (print_value : Value → Text) where
  print_path : Text → Value → Text
  print_path path u = path ++ codes "=" ++ print_value u

  -- The loop; `none` is an exception of `find_path`.
  unfoldable pub print_from : Value → List Text → Text → Text → Option Text
  unfolding find_path print_path
  print_from v [] sep os = some os
  print_from v (path ∷ paths) sep os = do
    u ← find_path path v
    print_from v paths (codes ", ") (os ++ sep ++ print_path path u)

  -- `operator<<` for both kinds of keys, which have their document and their index in the base class.
  unfoldable pub print : Value → List Text → Text → Option Text
  unfolding print_from
  print v index os = print_from v index [] os

  -- The paths and the values that they lead to.
  abbrev pub entries : (v : Value) (index : List Text) → All (Leads v) index → List (Text × Value)
  entries v [] h = []
  entries v (p ∷ ps) h = (p, h.0.0) ∷ entries v ps h.1

  abbrev pub print_entry : Text × Value → Text
  print_entry (p, u) = p ++ codes "=" ++ print_value u

  print_from-listed :
      (v : Value) (p : Text) (ps : List Text) (sep os : Text) (h : All (Leads v) (p ∷ ps))
      → print_from v (p ∷ ps) sep os ≡ some (os ++ sep ++ listed print_entry (entries v (p ∷ ps) h))
  unfolding print_from print_path
  print_from-listed v p [] sep os h = rw h.0.1 refl
  print_from-listed v p (q ∷ ps) sep os h = rw h.0.1 (
      print_from-listed v q ps (codes ", ") (os ++ sep ++ print_entry (p, h.0.0)) h.1
      ∙ ap some (simp (append_assoc)))

  -- A key whose paths lead to values is printed without an exception: as each path with an equals sign and
  -- the value that it leads to, in the order of the index, with a comma and a space between each two.
  pub print-IsResolved :
      (k : MutableKey) (os : Text) (r : IsResolved k.value k.index)
      → print k.value k.index os ≡ some (os ++ listed print_entry (entries k.value k.index r.leads))
  unfolding print print_from
  print-IsResolved k os r = go k.index r.leads
    where
      go :
          (index : List Text) (h : All (Leads k.value) index)
          → print_from k.value index [] os
            ≡ some (os ++ listed print_entry (entries k.value index h))
      go [] h = ap some (sym (append-nil os))
      go (p ∷ ps) h =
          print_from-listed k.value p ps [] os h
          ∙ ap (λ t. some (t ++ listed print_entry (entries k.value (p ∷ ps) h))) (append-nil os)
