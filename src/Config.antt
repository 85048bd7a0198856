-- ===== src/Config.antt =====
-- The lists that the configuration is read from, src/config.rs, and the rewriting of a public address. The
-- reading of an IP address is a parameter; the warning that a bad entry gets is left out.
pub mod Origins
pub mod Runs
use den_remux.Prelude.{
  ℕ, Bool, true, false, not, ◌&&◌, ◌||◌, List, [], ◌∷◌, ◌++◌, map, Option, none, some, ◌>>=◌, ◌==◌,
  if◌then◌else◌, filter_map, retain,
}
use den_remux.Text.{Text, codes, same, strip_prefix, split_once, contains, trim, to_lower}
use den_remux.Text.Split.{split}
use den_remux.Auth.{parse_hex32}
use mathlib.Core.List.{reverse}

unfoldable pub is_empty : Text → Bool
is_empty [] = true
is_empty (c ∷ s) = false

-- `LOG_REQUESTS`
unfoldable pub log_requests_on : Option Text → Bool
log_requests_on none = false
log_requests_on (some v) = not (is_empty v) && not (same v (codes "0"))

-- `LOG_IDENTITY`
unfoldable pub log_identity_on : Option Text → Bool
log_identity_on none = true
log_identity_on (some v) = not (same (to_lower v) (codes "0") || same (to_lower v) (codes "false"))

-- The entries between commas, without blanks, that are not empty.
unfoldable pub entries : Text → List Text
entries raw = retain (λ s. not (is_empty s)) (map trim (split b',' raw))

unfoldable pub parse_key_hashes : Text → List (List ℕ)
parse_key_hashes raw = filter_map parse_hex32 (entries raw)

unfoldable pub drop_slashes : Text → Text
drop_slashes [] = []
drop_slashes (c ∷ s) = elim (c == b'/') [ true ↦ drop_slashes s | false ↦ c ∷ s ]

-- `trim_end_matches('/')`
unfoldable pub trim_slashes : Text → Text
trim_slashes s = reverse (drop_slashes (reverse s))

-- `split_once("://")`
unfoldable pub split_scheme : Text → Option (Text × Text)
split_scheme [] = none
split_scheme (c ∷ s) = elim (strip_prefix (codes "://") (c ∷ s)) [
  | some host ↦ some ([], host)
  | none ↦ split_scheme s >>= λ p. some (c ∷ p.0, p.1)
]

abbrev pub is_host : Text → Bool
is_host host =
    not (is_empty host)
    && not
        (contains b'/' host || (contains b'?' host || (contains b'#' host || contains b'@' host)))

abbrev pub is_origin : Option (Text × Text) → Bool
is_origin none = false
is_origin (some (scheme, host)) =
    (same scheme (codes "http") || same scheme (codes "https")) && is_host host

abbrev pub normal : Text → Text
normal s = to_lower (trim_slashes s)

abbrev pub origin_of : Text → Option Text
origin_of s = if is_origin (split_scheme (normal s)) then some (normal s) else none

unfoldable pub parse_origins : Text → List Text
parse_origins raw = filter_map origin_of (entries raw)

unfoldable pub parse_proxies : {Address : Type 0} → (Text → Option Address) → Text → List Address
parse_proxies parse raw = filter_map parse (entries raw)

abbrev pub head_of : List Text → Option Text
head_of [] = none
head_of (o ∷ os) = some o

abbrev pub alias_of : Text → Option (Text × Text)
alias_of pair = do
  sides ← split_once b'=' pair
  public_side ← head_of (parse_origins sides.0)
  lan ← head_of (parse_origins sides.1)
  some (public_side, lan)

unfoldable pub parse_aliases : Text → List (Text × Text)
parse_aliases raw = filter_map alias_of (entries raw)

-- `rest.is_empty() || rest.starts_with(['/', '?'])`
abbrev pub ends_origin : Text → Bool
ends_origin [] = true
ends_origin (c ∷ s) = (c == b'/') || (c == b'?')

abbrev pub moved : Text → Option Text → Option Text
moved lan none = none
moved lan (some rest) = if ends_origin rest then some (lan ++ rest) else none

unfoldable pub local : Text → List (Text × Text) → Text
local url [] = url
local url ((public_side, lan) ∷ aliases) =
    let rest = local url aliases in
    elim (moved lan (strip_prefix public_side url)) [ some there ↦ there | none ↦ rest ]
