-- ===== src/Json/Find.antt =====
-- Following a path into a document: `subvalue` and `find_path` of src/jsonext.cpp. `none` is an exception.
use boost_connector.Base.{
  ℕ, zero, suc, ◌+◌, ◌-◌, ◌*◌, ◌%◌, ◌^◌, Text, Bool, true, false, not, ◌&&◌, ◌||◌, Option, none,
  some, ◌>>=◌, ◌≡◌, refl, List, [], ◌∷◌, ◌++◌, length, span, leb, ◌==◌, if◌then◌else◌, Option-cases,
  inl, inr,
}
use boost_connector.Json.{Value, Items, nil, item, object, array, if_contains}
use boost_connector.Json.Path.{dissect_path}

abbrev is_space : ℕ → Bool
is_space c = (c == b' ') || (leb 9 c && leb c 13)

abbrev is_digit : ℕ → Bool
is_digit c = leb b'0' c && leb c b'9'

unfoldable pub decimal : ℕ → Text → ℕ
decimal acc [] = acc
decimal acc (c ∷ s) = decimal (acc * 10 + (c - b'0')) s

-- The sign that `strtoul` accepts: whether it is a minus, its length, and the rest.
abbrev sign : Text → Bool × ℕ × Text
sign [] = (false, 0, [])
sign (c ∷ s) =
    if c == b'-' then (true, 1, s) else if c == b'+' then (false, 1, s) else (false, 0, c ∷ s)

abbrev pub ulong : ℕ
ulong = 2 ^ 64

clamp : Bool → ℕ → ℕ
clamp minus n = if leb ulong n then ulong - 1 else if minus then (ulong - n) % ulong else n

-- `strtoul` in base 10 with a 64-bit `unsigned long`: the value, and the number of characters taken.
unfoldable pub strtoul : Text → ℕ × ℕ
unfolding span decimal clamp
strtoul s =
    let (spaces, r1) = span is_space s in
    let (minus, sign_length, r2) = sign r1 in
    let (ds, r3) = span is_digit r2 in
    if length ds == 0
    then (0, 0)
    else (clamp minus (decimal 0 ds), length spaces + sign_length + length ds)

unfoldable pub assert_unsigned_integer : Text → Option ℕ
unfolding strtoul
assert_unsigned_integer s = let (n, taken) = strtoul s in if taken == length s then some n else none

-- `json::array::at`.
unfoldable pub item_at : ℕ → Items → Option Value
item_at i nil = none
item_at zero (item v a) = some v
item_at (suc i) (item v a) = item_at i a

-- The name goes through a C string, which ends at its first null character.
abbrev c_str : Text → Text
c_str s = (span (λ c. not (c == 0)) s).0

unfoldable pub subvalue : Text → Value → Option Value
unfolding assert_unsigned_integer item_at if_contains
subvalue name (object o) = if_contains name o
subvalue name (array a) = assert_unsigned_integer (c_str name) >>= λ i. item_at i a
subvalue name _ = none

-- The loop of `find_path`.
unfoldable pub find_segments : List Text → Value → Option Value
find_segments [] v = some v
find_segments (s ∷ segments) v = subvalue s v >>= find_segments segments

unfoldable pub find_path : Text → Value → Option Value
find_path path v = find_segments (dissect_path path) v

-- A path that goes on is followed from the value that its beginning leads to.
pub find_segments-append :
    (xs ys : List Text) (v : Value)
    → find_segments (xs ++ ys) v ≡ (find_segments xs v >>= find_segments ys)
unfolding find_segments
find_segments-append [] ys v = refl
find_segments-append (x ∷ xs) ys v = elim (Option-cases (subvalue x v)) [
  | inl gone ↦ rw gone
  | inr (u, found) ↦ rw found (find_segments-append xs ys u)
]
