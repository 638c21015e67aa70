-- ===== src/Url/RoundTrip.antt =====
-- URLs put together from their parts, and src/util/url.cpp.
use boost_connector.Base.{
  Text, codes, false, some, ◌≡◌, ◌≢◌, refl, [], ◌∷◌, ◌++◌, Within, span-append, span-all, arith,
}
use boost_connector.Url.Match.{
  in_host, in_port, in_path, in_query, in_fragment, scheme, match_protocol, match_rest, match_url,
}
use boost_connector.Url.{
  TransportType, tcp, tls, decode_url, deduce_port, deduce_transport, build_target, is_empty,
}

-- Parts that the pattern can tell apart: a host, a port, a path that begins with a slash, a query and a
-- fragment, each in its class of characters.
pub record IsWritable (host port path query fragment : Text) : Type 0 where
  pub host_some : host ≢ []
  pub host_in : Within in_host host
  pub port_in : Within in_port port
  pub path_in : Within in_path path
  pub query_in : Within in_query query
  pub fragment_in : Within in_fragment fragment

-- The part of a URL behind its scheme.
abbrev pub write_rest : Text → Text → Text → Text → Text → Text
write_rest host port path query fragment =
    host
    ++ (codes ":"
        ++ (port ++ (codes "/" ++ (path ++ (codes "?" ++ (query ++ (codes "#" ++ fragment)))))))

pub match_rest-write :
    (protocol host port path query fragment : Text)
    → IsWritable host port path query fragment
    → match_rest protocol (write_rest host port path query fragment)
      ≡ some (record {
        protocol = protocol;
        host = host;
        port_ind = port;
        path = codes "/" ++ path;
        query = query;
        fragment = fragment;
      })
unfolding match_rest
match_rest-write protocol [] port path query fragment w = absurd (w.host_some refl)
match_rest-write protocol (c ∷ host) port path query fragment w =
    let f : Text = b'#' ∷ fragment in
    let q : Text = b'?' ∷ (query ++ f) in
    let p : Text = b'/' ∷ (path ++ q) in
    rw (
      span-append in_host (c ∷ host) (b':' ∷ (port ++ p)) w.host_in refl,
      span-append in_port port p w.port_in refl,
      span-append in_path (b'/' ∷ path) q (refl, w.path_in) refl,
      span-append in_query query f w.query_in refl,
      span-all in_fragment fragment w.fragment_in,
    )

-- The schemes, each with its port and transport.
pub data Scheme : Type 0 where
  ws wss http https : Scheme

abbrev pub name : Scheme → Text
name ws = codes "ws"
name wss = codes "wss"
name http = codes "http"
name https = codes "https"

abbrev pub transport_of : Scheme → TransportType
transport_of ws = tcp
transport_of wss = tls
transport_of http = tcp
transport_of https = tls

abbrev pub write_url : Scheme → Text → Text → Text → Text → Text → Text
write_url s host port path query fragment =
    name s ++ (codes "://" ++ write_rest host port path query fragment)

match_protocol-write :
    (s : Scheme) (t : Text) → match_protocol (name s ++ (codes "://" ++ t)) ≡ some (name s, t)
unfolding match_protocol
match_protocol-write ws t = refl
match_protocol-write wss t = refl
match_protocol-write http t = refl
match_protocol-write https t = refl

deduce_transport-name :
    (s : Scheme) (port : Text) → deduce_transport (name s) port ≡ some (transport_of s)
unfolding deduce_transport
deduce_transport-name ws port = refl
deduce_transport-name wss port = refl
deduce_transport-name http port = refl
deduce_transport-name https port = refl

deduce_port-some :
    (scheme port : Text) → is_empty port ≡ false → deduce_port scheme port ≡ some port
unfolding deduce_port
deduce_port-some scheme port h = rw h

build_target-some :
    (path query fragment : Text)
    → is_empty query ≡ false
    → is_empty fragment ≡ false
    → build_target (b'/' ∷ path) query fragment
      ≡ codes "/" ++ (path ++ (codes "?" ++ (query ++ (codes "#" ++ fragment))))
unfolding build_target
build_target-some path query fragment hq hf = rw (hq, hf)

-- A URL written from a scheme, a host, a port, a path, a query and a fragment, none of them empty but
-- the path behind its slash, is decoded into that host and port, the target with its query and fragment
-- as written, and the transport of the scheme.
pub decode_url-write :
    (s : Scheme) (host port path query fragment : Text)
    → IsWritable host port path query fragment
    → is_empty port ≡ false
    → is_empty query ≡ false
    → is_empty fragment ≡ false
    → decode_url (write_url s host port path query fragment)
      ≡ some (record {
        hostname = host;
        service = port;
        path_etc = codes "/" ++ (path ++ (codes "?" ++ (query ++ (codes "#" ++ fragment))));
        transport = transport_of s;
      })
unfolding decode_url match_url
decode_url-write s host port path query fragment w hp hq hf =
    rw (match_protocol-write s (write_rest host port path query fragment)) (
      rw (match_rest-write (name s) host port path query fragment w) (
        ground (
          arith,
          deduce_port-some (name s) port hp,
          deduce_transport-name s port,
          build_target-some path query fragment hq hf,
        )))
