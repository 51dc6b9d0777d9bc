-- ===== src/Redact.antt =====
-- pkg/transport/internal/redact: the credentials of URLs kept out of logs and errors. Parsing and
-- printing of URLs and the trimming of Unicode spaces are the standard library's, and parameters.
pub mod Hides
use event_driven.Prelude.{
  Bytes, str, ◌++◌, ◌==◌, cut_prefix, is_some, Bool, false, ◌||◌, not, Option, none, some, List, [],
  ◌∷◌, map, if◌then◌else◌,
}

-- url.URL
pub record Url : Type 0 where
  pub scheme : Bytes
  pub opaque : Bytes
  pub user : Option (Bytes × Option Bytes)
  pub host : Bytes
  pub path : Bytes
  pub raw_path : Bytes
  pub omit_host : Bool
  pub force_query : Bool
  pub raw_query : Bytes
  pub fragment : Bytes
  pub raw_fragment : Bytes

-- `parse` is url.Parse, and `none` where it has an error; `print` is String of a URL.
pub record Urls : Type 0 where
  pub parse : Bytes → Option Url
  pub print : Url → Bytes
  pub trim_space : Bytes → Bytes

-- strings.Contains
unfoldable pub contains : Bytes → Bytes → Bool
unfolding cut_prefix
contains [] sub = is_some (cut_prefix [] sub)
contains (c ∷ s) sub = is_some (cut_prefix (c ∷ s) sub) || contains s sub

-- strings.Split at commas: the first part and the others.
unfoldable pub split : Bytes → Bytes × List Bytes
split [] = ([], [])
split (c ∷ s) =
    let (part, parts) = split s in if c == b',' then ([], part ∷ parts) else (c ∷ part, parts)

abbrev pub parts_of : Bytes × List Bytes → List Bytes
parts_of (part, parts) = part ∷ parts

-- strings.Join with commas.
unfoldable pub join_parts : List Bytes → Bytes
join_parts [] = []
join_parts (part ∷ []) = part
join_parts (part ∷ parts) = part ++ str "," ++ join_parts parts

module _ (lib : Urls) where
  abbrev pub redacted : Url → Url
  redacted u = record {
    scheme = u.scheme;
    opaque = [];
    user = none;
    host = u.host;
    path = u.path;
    raw_path = [];
    omit_host = false;
    force_query = false;
    raw_query = [];
    fragment = [];
    raw_fragment = [];
  }

  abbrev pub printed : Option Url → Bytes
  printed none = []
  printed (some u) = lib.print (redacted u)

  -- URL
  unfoldable pub url : Bytes → Bytes
  unfolding contains
  url raw = if not (contains raw (str "://")) then [] else printed (lib.parse raw)

  -- URLs
  unfoldable pub urls : Bytes → Bytes
  unfolding url split join_parts
  urls raw = join_parts (map (λ p. url (lib.trim_space p)) (parts_of (split raw)))
