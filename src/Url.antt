-- ===== src/Url.antt =====
-- src/util/url.cpp, include/boost/connector/util/url.hpp and transport_type.hpp. The regular expression is
-- a scanner: each of its character classes excludes what may follow it, so the greedy match is the only
-- one. `none` is the exception that the code throws.
pub mod Match
pub mod RoundTrip
use boost_connector.Base.{
  ℕ, ◌+◌, Text, codes, text_eq, Bool, true, false, not, ◌&&◌, ◌||◌, Option, none, some, ◌>>=◌, List,
  [], ◌∷◌, ◌++◌, map, ◌==◌, leb, if◌then◌else◌,
}
use boost_connector.Url.Match.{Groups, match_url}

pub data TransportType : Type 0 where
  tcp tls : TransportType

pub record UrlParts : Type 0 where
  pub hostname : Text
  pub service : Text
  pub path_etc : Text
  pub transport : TransportType

abbrev pub is_empty : Text → Bool
is_empty [] = true
is_empty (c ∷ s) = false

to_lower : ℕ → ℕ
to_lower c = if leb b'A' c && leb c b'Z' then c + 32 else c

-- `boost::algorithm::iequals` in the classic locale.
unfoldable pub iequals : Text → Text → Bool
unfolding text_eq to_lower
iequals a b = text_eq (map to_lower a) (map to_lower b)

unfoldable pub deduce_port : Text → Text → Option Text
unfolding iequals
deduce_port scheme port =
    if is_empty port
    then (if iequals scheme (codes "ws") || iequals scheme (codes "http")
        then some (codes "http")
        else if iequals scheme (codes "wss") || iequals scheme (codes "https")
        then some (codes "https")
        else none)
    else some port

unfoldable pub deduce_transport : Text → Text → Option TransportType
unfolding iequals
deduce_transport scheme port =
    if is_empty scheme
    then (if is_empty port
        then some tcp
        else if iequals port (codes "http")
            || (iequals port (codes "ws") || iequals port (codes "80"))
        then some tcp
        else if iequals port (codes "https")
            || (iequals port (codes "wss") || iequals port (codes "443"))
        then some tls
        else none)
    else if iequals scheme (codes "http") || iequals scheme (codes "ws")
    then some tcp
    else if iequals scheme (codes "https") || iequals scheme (codes "wss")
    then some tls
    else none

unfoldable pub build_target : Text → Text → Text → Text
build_target path query fragment =
    (if is_empty path then codes "/" else path)
    ++ ((if is_empty query then [] else codes "?" ++ query)
        ++ (if is_empty fragment then [] else codes "#" ++ fragment))

unfoldable pub decode_url : Text → Option UrlParts
unfolding match_url deduce_port deduce_transport build_target
decode_url url = do
  g ← match_url url
  service ← deduce_port g.protocol g.port_ind
  transport ← deduce_transport g.protocol g.port_ind
  some (record {
    hostname = g.host;
    service = service;
    path_etc = build_target g.path g.query g.fragment;
    transport = transport;
  })
