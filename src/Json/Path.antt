-- ===== src/Json/Path.antt =====
-- Paths into a JSON document: `dissect_path` and `to_path` of src/jsonext.cpp.
pub mod Canonical
use boost_connector.Base.{
  ℕ, zero, suc, Text, codes, Bool, true, false, not, List, [], ◌∷◌, ◌++◌, span, length, ◌==◌,
  if◌then◌else◌,
}

abbrev pub is_sep : ℕ → Bool
is_sep s = s == b'/'

abbrev pub not_sep : ℕ → Bool
not_sep s = not (is_sep s)

-- The loop of `dissect_path`, with fuel for one round for each character.
unfoldable pub dissect : ℕ → Text → List Text
unfolding span
dissect zero s = []
dissect (suc f) [] = []
dissect (suc f) (c ∷ s) =
    let (segment, rest) = span not_sep (c ∷ s) in
    let skipped = dissect f s in
    let taken = segment ∷ dissect f rest in if is_sep c then skipped else taken

unfoldable pub dissect_path : Text → List Text
unfolding dissect
dissect_path input = dissect (length input) input

-- The loop of `to_path`.
abbrev pub join : List Text → Text
join [] = []
join (s ∷ segments) = b'/' ∷ (s ++ join segments)

abbrev pub or_root : Text → Text
or_root [] = codes "/"
or_root (c ∷ s) = c ∷ s

unfoldable pub to_path : List Text → Text
to_path segments = or_root (join segments)
