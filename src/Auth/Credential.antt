-- ===== src/Auth/Credential.antt =====
-- Which credentials of browsers are accepted.
use den_remux.Prelude.{
  ℕ, ◌^◌, ◌<◌, ◌≡◌, ◌≢◌, refl, subst, arith, Bool, true, false, List, [], ◌∷◌, ◌++◌, All-append,
}
use den_remux.Prelude.{none, some, some-inj, >>=-eq-some, leb, if◌then◌else◌, take}
use den_remux.Text.{Text, same, split_once, parse_u64}
use den_remux.Text.Same.{same_refl, same_sound}
use den_remux.Text.Decimal.{print, print-IsDigit, IsDigit-ne, split_once-append, parse_u64-print}
use den_remux.Text.Split.{hex_two}
use den_remux.Text.Split.Print.{hex_two-IsPiece, IsPiece}
use den_remux.Auth.{
  Crypto, mac, hex, names_browser, first_piece, browser_credential, checked, credential_browser,
}

-- The test of a credential, passed.
passed :
    (late ok known : Bool) (b c : Text)
    → (if late then none else if ok then (if known then some b else none) else none) ≡ some c
    → (late ≡ false) × ((ok ≡ true) × ((known ≡ true) × (b ≡ c)))
passed true ok known b c e = cc
passed false false known b c e = cc
passed false true false b c e = cc
passed false true true b c e = (refl, (refl, (refl, some-inj e)))

module _ (cr : Crypto) (key : List ℕ) (hashes : List (List ℕ)) (domain value browser : Text)
    (now : ℕ) where
  -- What an accepted credential is.
  pub record IsIssued : Type 0 where
    pub exp : ℕ
    pub signed : value ≡ browser_credential cr key domain browser exp
    pub lasts : now < exp
    pub configured : names_browser browser hashes ≡ true

  -- A credential is accepted for a browser only if it is, in full, what `browser_credential` issues
  -- for that browser and an expiry that is still to come, and one of the configured keys has that
  -- browser id.
  pub credential_browser-IsIssued :
      credential_browser cr key hashes domain value now ≡ some browser → IsIssued
  unfolding credential_browser
  credential_browser-IsIssued h =
      let (p, e, f) = >>=-eq-some (split_once b'.' value) _ h in
      let (exp, g, k) = >>=-eq-some (parse_u64 (first_piece b'.' p.1)) _ f in
      let (l, s, n, b) = parts exp p.0 k in
      record {
        exp = exp;
        signed =
            subst (λ t. value ≡ browser_credential cr key domain t exp) b
              (same_sound value (browser_credential cr key domain p.0 exp) s);
        lasts = ground (arith, l);
        configured = subst (λ t. names_browser t hashes ≡ true) b n;
      }
    where
      parts :
          (exp : ℕ) (b : Text)
          → checked cr key hashes domain value now b exp ≡ some browser
          → (leb exp now ≡ false)
            × (same value (browser_credential cr key domain b exp) ≡ true)
            × (names_browser b hashes ≡ true)
            × (b ≡ browser)
      parts exp b k =
          let (l, r) =
            passed (leb exp now) (same value (browser_credential cr key domain b exp))
              (names_browser b hashes) b browser k in
          (l, r.0, r.1.0, r.1.1)

-- A browser's id has no separator.
pub hex-IsPiece : (bs : List ℕ) → IsPiece 46 (hex bs)
unfolding hex
hex-IsPiece [] = tt
hex-IsPiece (b ∷ bs) =
    All-append (λ d. d ≢ 46) (hex_two b) (hex bs) (hex_two-IsPiece b) (hex-IsPiece bs)

first_piece-append : (s t : Text) → IsPiece 46 s → first_piece 46 (s ++ (46 ∷ t)) ≡ s
unfolding first_piece
first_piece-append s t h = rw (split_once-append 46 s t h, first_piece) refl

module _ (cr : Crypto) (key : List ℕ) (hashes : List (List ℕ)) (domain browser : Text)
    (exp now : ℕ) where
  -- What `browser_credential` issues for a browser, with an id without a dot, is accepted for it
  -- until it expires, while one of the configured keys has that id; the expiry is below 2^64.
  pub credential_browser-own :
      IsPiece 46 browser
      → names_browser browser hashes ≡ true
      → exp < 2 ^ 64
      → now < exp
      → credential_browser cr key hashes domain (browser_credential cr key domain browser exp) now
        ≡ some browser
  unfolding credential_browser
  credential_browser-own p n h l = rw (cut, piece, parse_u64-print exp h) accept
    where
      sig : Text
      sig = cr.b64 (take 16 (mac cr key domain (browser ∷ print exp ∷ [])))

      cut :
          split_once b'.' (browser_credential cr key domain browser exp)
          ≡ some (browser, print exp ++ (b'.' ∷ sig))
      cut = unfold browser_credential in split_once-append 46 browser (print exp ++ (b'.' ∷ sig)) p

      piece : first_piece b'.' (print exp ++ (b'.' ∷ sig)) ≡ print exp
      piece =
          first_piece-append (print exp) sig
            (IsDigit-ne 46 (print exp) (omega arith) (print-IsDigit exp))

      accept :
          checked cr key hashes domain
            (browser_credential cr key domain browser exp)
            now
            browser
            exp
          ≡ some browser
      accept =
          let late : leb exp now ≡ false = ground (arith, l) in
          rw (late, same_refl (browser_credential cr key domain browser exp), n) refl
