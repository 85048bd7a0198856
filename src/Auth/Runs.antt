-- ===== src/Auth/Runs.antt =====
-- A cookie of one browser, with a hash that keeps what it hashes.
use den_remux.Prelude.{ℕ, ◌≡◌, refl, arith, true, List, [], ◌∷◌, some}
use den_remux.Text.{Text, codes, same}
use den_remux.Auth.{
  Crypto, browser_id, names_browser, hex, cookie_domain, credential_browser, browser_credential,
}
use den_remux.Auth.Message.{message-inj}
use den_remux.Auth.Credential.{
  hex-IsPiece, IsIssued, credential_browser-IsIssued, credential_browser-own,
}

abbrev plain : Crypto
plain = record { hmac = λ key m. m; sha256 = λ b. b; b64 = λ b. b }

abbrev phone : List ℕ
phone = 1 ∷ 2 ∷ 3 ∷ 4 ∷ 5 ∷ 6 ∷ 7 ∷ 8 ∷ 9 ∷ []

abbrev browser : Text
browser = browser_id phone

configured : names_browser browser (phone ∷ []) ≡ true
unfolding names_browser browser_id hex same
configured = refl

abbrev cookie : Text
cookie = browser_credential plain (7 ∷ []) cookie_domain browser 2000

credential_browser-own_example :
    credential_browser plain (7 ∷ []) (phone ∷ []) cookie_domain cookie 1000 ≡ some browser
unfolding browser_id
credential_browser-own_example =
    credential_browser-own plain (7 ∷ []) (phone ∷ []) cookie_domain browser 2000 1000
      (hex-IsPiece (1 ∷ 2 ∷ 3 ∷ 4 ∷ 5 ∷ 6 ∷ 7 ∷ 8 ∷ [])) configured (omega arith) (omega arith)

credential_browser-IsIssued_example :
    IsIssued plain (7 ∷ []) (phone ∷ []) cookie_domain cookie browser 1000
credential_browser-IsIssued_example =
    credential_browser-IsIssued plain (7 ∷ []) (phone ∷ []) cookie_domain cookie browser 1000
      credential_browser-own_example

message-inj_example :
    (codes "a" ≡ codes "a") × (codes "b" ∷ codes "c" ∷ [] ≡ codes "b" ∷ codes "c" ∷ [])
message-inj_example =
    message-inj (codes "a") (codes "a") (codes "b" ∷ codes "c" ∷ []) (codes "b" ∷ codes "c" ∷ [])
      (ground arith) (ground arith) (ground arith) (ground arith) refl
