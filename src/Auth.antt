-- ===== src/Auth.antt =====
-- Who may do what, src/auth.rs: ids, signatures of session URLs, and the cookies and tokens of browsers. The
-- keyed hash, the hash and base64 are a parameter. A constant-time comparison is an equality test.
pub mod Message
pub mod Credential
pub mod Hex
pub mod Runs
use den_remux.Prelude.{
  ℕ, zero, suc, ◌+◌, ◌*◌, ◌%◌, ◌^◌, Bool, true, false, not, ◌&&◌, ◌||◌, List, [], ◌∷◌, ◌++◌,
}
use den_remux.Prelude.{
  Option, none, some, ◌>>=◌, ltb, leb, ◌==◌, length, take, if◌then◌else◌, find_map,
}
use den_remux.Text.{Text, codes, same, strip_prefix, split_once, trim, parse_u64}
use den_remux.Text.Decimal.{print}
use den_remux.Text.Split.{split, hex_two, hex_value}

pub record Crypto : Type 0 where
  pub hmac : List ℕ → List ℕ → List ℕ
  pub sha256 : List ℕ → List ℕ
  pub b64 : List ℕ → Text

unfoldable pub all_of : (ℕ → Bool) → Text → Bool
all_of p [] = true
all_of p (c ∷ s) = p c && all_of p s

abbrev pub is_digit : ℕ → Bool
is_digit c = leb 48 c && leb c 57

abbrev pub is_alphanumeric : ℕ → Bool
is_alphanumeric c = is_digit c || ((leb 65 c && leb c 90) || (leb 97 c && leb c 122))

unfoldable pub is_id : Text → Bool
is_id s = (length s == 22) && all_of (λ c. is_alphanumeric c || ((c == b'-') || (c == b'_'))) s

-- The pairs of hexadecimal digits of `parse_hex32`.
unfoldable pub hex_pairs : Text → Option (List ℕ)
hex_pairs [] = some []
hex_pairs (h ∷ []) = none
hex_pairs (h ∷ l ∷ s) = do
  high ← hex_value h
  low ← hex_value l
  rest ← hex_pairs s
  some ((high * 16 + low) ∷ rest)

unfoldable pub parse_hex32 : Text → Option (List ℕ)
parse_hex32 s = if length s == 64 then hex_pairs s else none

unfoldable pub hex : List ℕ → Text
hex [] = []
hex (b ∷ bs) = hex_two b ++ hex bs

-- `is_grant_owner`, without its prefix.
abbrev pub is_grant_id : Option Text → Bool
is_grant_id none = false
is_grant_id (some gid) =
    (length gid == 8) && all_of (λ c. is_digit c || (leb 97 c && leb c 102)) gid

unfoldable pub is_grant_owner : Text → Bool
is_grant_owner owner = is_grant_id (strip_prefix (codes "grant:") owner)

unfoldable pub edge_secret_ok : Option Text → Option (List ℕ) → Bool
edge_secret_ok (some secret) (some presented) = same secret presented
edge_secret_ok _ _ = false

-- What `mac` hashes: the domain, and each part behind a zero.
unfoldable pub parts_bytes : List Text → List ℕ
parts_bytes [] = []
parts_bytes (p ∷ ps) = 0 ∷ (p ++ parts_bytes ps)

unfoldable pub message : Text → List Text → List ℕ
message domain parts = domain ++ parts_bytes parts

abbrev pub cookie_domain : Text
cookie_domain = codes "den-remux/cookie"

abbrev pub browser_domain : Text
browser_domain = codes "den-remux/browser"

abbrev pub url_domain : Text
url_domain = codes "den-remux/url"

unfoldable pub browser_id : List ℕ → Text
browser_id hash = hex (take 8 hash)

unfoldable pub names_browser : Text → List (List ℕ) → Bool
names_browser browser [] = false
names_browser browser (h ∷ hs) = same (browser_id h) browser || names_browser browser hs

-- The text before the first separator, or all of it.
unfoldable pub first_piece : ℕ → Text → Text
first_piece c s = elim (split_once c s) [ none ↦ s | some (a, b) ↦ a ]

unfoldable pub set_cookie : Text → Text
set_cookie value =
    codes "den_remux="
    ++ (value
        ++ (codes "; Path=/remux; Max-Age="
            ++ (print 2592000 ++ codes "; HttpOnly; Secure; SameSite=Strict")))

module _ (cr : Crypto) where
  unfoldable pub mac : List ℕ → Text → List Text → List ℕ
  mac key domain parts = cr.hmac key (message domain parts)

  unfoldable pub url_sig : List ℕ → Text → ℕ → Text
  url_sig key sid exp = cr.b64 (take 16 (mac key url_domain (sid ∷ print exp ∷ [])))

  unfoldable pub url_sig_ok : List ℕ → Text → ℕ → Text → Bool
  url_sig_ok key sid exp presented =
      (length presented == 22) && same presented (url_sig key sid exp)

  unfoldable pub install_id : Text → Text
  install_id base = codes "install:" ++ hex (take 8 (cr.sha256 base))

  unfoldable pub last_match : List ℕ → List (List ℕ) → Option Text → Option Text
  last_match h [] found = found
  last_match h (known ∷ ks) found =
      last_match h ks (if same h known then some (browser_id known) else found)

  unfoldable pub browser_for_key : List (List ℕ) → Text → Option Text
  browser_for_key hashes key = last_match (cr.sha256 key) hashes none

  unfoldable pub browser_credential : List ℕ → Text → Text → ℕ → Text
  browser_credential key domain browser exp =
      browser
      ++ (b'.'
          ∷ (print exp ++ (b'.' ∷ cr.b64 (take 16 (mac key domain (browser ∷ print exp ∷ []))))))

  unfoldable pub cookie_value : List ℕ → Text → ℕ → Text
  cookie_value key browser exp = browser_credential key cookie_domain browser exp

  unfoldable pub browser_token : List ℕ → Text → ℕ → Text
  browser_token key browser exp = browser_credential key browser_domain browser exp

  -- The checks of `credential_browser`, once the browser and the expiry are read.
  abbrev pub checked : List ℕ → List (List ℕ) → Text → Text → ℕ → Text → ℕ → Option Text
  checked key hashes domain value now browser exp =
      if leb exp now
      then none
      else if same value (browser_credential key domain browser exp)
      then (if names_browser browser hashes then some browser else none)
      else none

  unfoldable pub credential_browser : List ℕ → List (List ℕ) → Text → Text → ℕ → Option Text
  credential_browser key hashes domain value now = split_once b'.' value >>= λ p.
      parse_u64 (first_piece b'.' p.1) >>= λ exp. checked key hashes domain value now p.0 exp

  unfoldable pub token_browser : List ℕ → List (List ℕ) → Text → ℕ → Option Text
  token_browser key hashes value now = credential_browser key hashes browser_domain value now

  unfoldable pub cookie_browser : List ℕ → List (List ℕ) → Option Text → ℕ → Option Text
  cookie_browser key hashes header now = header >>= λ h.
      find_map (λ kv. strip_prefix (codes "den_remux=") (trim kv)) (split b';' h) >>= λ value.
      credential_browser key hashes cookie_domain value now
