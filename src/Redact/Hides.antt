-- ===== src/Redact/Hides.antt =====
-- What a redacted list of servers shows.
use event_driven.Prelude.{
  ◌≡◌, refl, ap, ◌∙◌, sym, Bytes, str, Bool, true, false, not, Option, none, some, List, [], ◌∷◌,
  map, if◌then◌else◌,
}
use event_driven.Redact.{Url, Urls, contains, split, parts_of, join_parts, printed, url, urls}

-- Scheme, host and path.
abbrev Endpoint : Type 0
Endpoint = Bytes × Bytes × Bytes

module _ (lib : Urls) where
  abbrev shown : Option Url → Option Endpoint
  shown none = none
  shown (some u) = some (u.scheme, u.host, u.path)

  -- Scheme, host and path of the URL of a server as url.Parse finds them, if it contains "://" and parses.
  abbrev pub endpoint : Bytes → Option Endpoint
  endpoint server = if contains server (str "://") then shown (lib.parse server) else none

  -- The endpoints that a list of servers names, in order.
  abbrev pub endpoints : Bytes → List (Option Endpoint)
  endpoints raw = map (λ p. endpoint (lib.trim_space p)) (parts_of (split raw))

  abbrev printed_endpoint : Option Endpoint → Bytes
  printed_endpoint none = []
  printed_endpoint (some (scheme, host, path)) = lib.print (record {
    scheme = scheme;
    opaque = [];
    user = none;
    host = host;
    path = path;
    raw_path = [];
    omit_host = false;
    force_query = false;
    raw_query = [];
    fragment = [];
    raw_fragment = [];
  })

  printed-if :
      (b : Bool) (o : Option Url)
      → (if not b then [] else printed lib o) ≡ printed_endpoint (if b then shown o else none)
  printed-if true none = refl
  printed-if true (some u) = refl
  printed-if false o = refl

  map-url :
      (parts : List Bytes)
      → map (λ p. url lib (lib.trim_space p)) parts
        ≡ map printed_endpoint (map (λ p. endpoint (lib.trim_space p)) parts)
  unfolding url
  map-url [] = refl
  map-url (p ∷ parts) =
      let server = lib.trim_space p in
      λ i. printed-if (contains server (str "://")) (lib.parse server) i ∷ map-url parts i

  -- Two lists whose elements url.Parse gives the same schemes, hosts and paths, in order, are redacted to
  -- the same text: what else it finds in them, userinfo, query and fragment among it, does not show, and
  -- nothing shows of an element without "://" or of one that does not parse.
  pub urls-hides :
      (raw raw' : Bytes) → endpoints raw ≡ endpoints raw' → urls lib raw ≡ urls lib raw'
  unfolding urls
  urls-hides raw raw' h = ap join_parts (
      map-url (parts_of (split raw))
      ∙ ap (map printed_endpoint) h
      ∙ sym (map-url (parts_of (split raw'))))
