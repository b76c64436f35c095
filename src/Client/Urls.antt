-- ===== src/Client/Urls.antt =====
-- `ParseHttpUrl` and `EndpointForOutput` (Client) on a URL that is put together from its parts.
use laminar_inference.Base.{
  ℕ, ◌≡◌, refl, ◌∙◌, Bool, true, false, not, ◌&&◌, [], ◌∷◌, ◌++◌, none, some, ◌==◌, arith,
}
use laminar_inference.Base.Text.{Str, codes, is_empty}
use laminar_inference.Texts.Json.{strip_prefix}
use laminar_inference.Client.{
  cut_first, cut_last, parse_authority, parse_http_url, endpoint_for_output,
}

abbrev pub lacks : ℕ → Str → Bool
lacks c [] = true
lacks c (d ∷ ds) = not (d == c) && lacks c ds

cut_first-append :
    (c : ℕ) (before after : Str)
    → lacks c before ≡ true
    → cut_first c (before ++ c ∷ after) ≡ some (before, c ∷ after)
unfolding cut_first
cut_first-append c [] after h = let same : (c == c) ≡ true = ground arith in rw same refl
cut_first-append c (d ∷ ds) after h =
    let other : (d == c) ≡ false = ground arith in
    let rest = cut_first-append c ds after (ground arith) in rw (other, rest) refl

cut_last-none : (c : ℕ) (s : Str) → lacks c s ≡ true → cut_last c s ≡ none
unfolding cut_last
cut_last-none c [] h = refl
cut_last-none c (d ∷ ds) h =
    let other : (d == c) ≡ false = ground arith in
    let rest = cut_last-none c ds (ground arith) in rw (rest, other) refl

cut_last-append :
    (c : ℕ) (before after : Str)
    → lacks c after ≡ true
    → cut_last c (before ++ c ∷ after) ≡ some (before, after)
unfolding cut_last
cut_last-append c [] after h =
    let same : (c == c) ≡ true = ground arith in rw (cut_last-none c after h, same) refl
cut_last-append c (d ∷ ds) after h = rw (cut_last-append c ds after h) refl

-- The URL of a host, a port and what follows the first slash.
abbrev pub url_of : Str → Str → Str → Str
url_of host port rest = codes "http://" ++ ((host ++ 58 ∷ port) ++ 47 ∷ rest)

authority_empty : (host port : Str) → is_empty (host ++ 58 ∷ port) ≡ false
authority_empty [] port = refl
authority_empty (c ∷ cs) port = refl

parse_http_url-cut :
    (r authority path : Str)
    → cut_first 47 r ≡ some (authority, path)
    → parse_http_url (codes "http://" ++ r) ≡ parse_authority authority path
unfolding parse_http_url strip_prefix
parse_http_url-cut r authority path e = rw (e, parse_http_url) refl

parse_authority-cut :
    (authority host port path : Str)
    → is_empty authority ≡ false
    → cut_last 58 authority ≡ some (host, port)
    → parse_authority authority path ≡ record {
      valid = not (is_empty host) && not (is_empty port) && not (is_empty path);
      host = host;
      port = port;
      path = path;
    }
unfolding parse_authority
parse_authority-cut authority host port path some_authority e =
    rw (some_authority, e, parse_authority) refl

-- `ParseHttpUrl` takes a URL apart into the host, the port and the path that it was put together from,
-- where host and port are not empty and have no slash, and the port has no colon.
pub parse_http_url-url_of :
    (host port rest : Str)
    → is_empty host ≡ false
    → is_empty port ≡ false
    → lacks 47 (host ++ 58 ∷ port) ≡ true
    → lacks 58 port ≡ true
    → parse_http_url (url_of host port rest)
      ≡ record { valid = true; host = host; port = port; path = 47 ∷ rest }
parse_http_url-url_of host port rest h p slashes colons =
    let authority = host ++ 58 ∷ port in
    let parsed =
      parse_http_url-cut (authority ++ 47 ∷ rest) authority (47 ∷ rest)
        (cut_first-append 47 authority rest slashes) in
    let split =
      parse_authority-cut authority host port (47 ∷ rest) (authority_empty host port)
        (cut_last-append 58 host port colons) in
    parsed ∙ split ∙ rw (h, p) refl

-- `EndpointForOutput` of a URL that is put together from a host, a port and a path is the URL without its
-- scheme, where host and port are not empty and have no slash, and the port has no colon.
pub endpoint_for_output-url_of :
    (host port rest : Str)
    → is_empty host ≡ false
    → is_empty port ≡ false
    → lacks 47 (host ++ 58 ∷ port) ≡ true
    → lacks 58 port ≡ true
    → endpoint_for_output (url_of host port rest) ≡ host ++ codes ":" ++ port ++ 47 ∷ rest
unfolding endpoint_for_output
endpoint_for_output-url_of host port rest h p slashes colons =
    rw (parse_http_url-url_of host port rest h p slashes colons) refl
