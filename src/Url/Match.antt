-- ===== src/Url/Match.antt =====
-- The regular expression of `decode_url`:
-- (ws|wss|http|https)://([^/ :]+):?([^/ ]*)(/?[^ #?]*)\x3f?([^ #]*)#?([^ ]*), without regard to case.
use boost_connector.Base.{
  ℕ, ◌+◌, Text, codes, Bool, not, ◌&&◌, ◌||◌, Option, none, some, ◌>>=◌, [], ◌∷◌, span, ◌==◌, leb,
  if◌then◌else◌,
}

pub record Groups : Type 0 where
  pub protocol : Text
  pub host : Text
  pub port_ind : Text
  pub path : Text
  pub query : Text
  pub fragment : Text

abbrev pub in_host : ℕ → Bool
in_host c = not ((c == b'/') || ((c == b' ') || (c == b':')))

abbrev pub in_port : ℕ → Bool
in_port c = not ((c == b'/') || (c == b' '))

-- The class of `/?[^ #?]*`, whose optional first character is in the class too.
abbrev pub in_path : ℕ → Bool
in_path c = not ((c == b' ') || ((c == b'#') || (c == b'?')))

abbrev pub in_query : ℕ → Bool
in_query c = not ((c == b' ') || (c == b'#'))

abbrev pub in_fragment : ℕ → Bool
in_fragment c = not (c == b' ')

-- An optional character.
abbrev pub skip : ℕ → Text → Text
skip k [] = []
skip k (c ∷ s) = if c == k then s else c ∷ s

same_letter : ℕ → ℕ → Bool
same_letter k c = (c == k) || ((leb b'a' k && leb k b'z') && (c + 32 == k))

-- A literal in small letters, against the text without regard to case: what it matched, and the rest.
unfoldable pub literal : Text → Text → Option (Text × Text)
unfolding same_letter
literal [] s = some ([], s)
literal (k ∷ ks) [] = none
literal (k ∷ ks) (c ∷ s) =
    let rest = literal ks s in if same_letter k c then (rest >>= λ r. some (c ∷ r.0, r.1)) else none

abbrev pub or_else : Option (Text × Text) → Option (Text × Text) → Option (Text × Text)
or_else none y = y
or_else (some a) y = some a

-- One alternative of the first group, with the `://` behind it.
unfoldable pub scheme : Text → Text → Option (Text × Text)
unfolding literal
scheme name s = do r ← literal name s; q ← literal (codes "://") r.1; some (r.0, q.1)

unfoldable pub match_protocol : Text → Option (Text × Text)
unfolding scheme
match_protocol s = or_else (scheme (codes "ws") s) (
    or_else (scheme (codes "wss") s) (or_else (scheme (codes "http") s) (scheme (codes "https") s)))

abbrev require_end : Groups → Text → Option Groups
require_end g [] = some g
require_end g (c ∷ s) = none

abbrev require_host : Text → Groups → Text → Option Groups
require_host [] g s = none
require_host (c ∷ h) g s = require_end g s

-- The groups after the first.
unfoldable pub match_rest : Text → Text → Option Groups
match_rest protocol s =
    let (host, r1) = span in_host s in
    let (port_ind, r2) = span in_port (skip b':' r1) in
    let (path, r3) = span in_path r2 in
    let (query, r4) = span in_query (skip b'?' r3) in
    let (fragment, r5) = span in_fragment (skip b'#' r4) in
    require_host host
      (record {
        protocol = protocol;
        host = host;
        port_ind = port_ind;
        path = path;
        query = query;
        fragment = fragment;
      })
      r5

unfoldable pub match_url : Text → Option Groups
unfolding match_protocol match_rest
match_url url = do r ← match_protocol url; match_rest r.0 r.1
