-- ===== src/Auth/Message.antt =====
-- What is signed names its domain and its parts.
use den_remux.Prelude.{ℕ, ◌≡◌, ◌≢◌, refl, sym, ◌∙◌, List, [], ◌∷◌, ◌++◌, All}
use den_remux.Text.{Text}
use den_remux.Auth.{parts_bytes, message}

abbrev pub HasNoZero : Text → Type 0
HasNoZero s = All (λ c. c ≢ 0) s

-- What may stand behind a part: nothing, or the separator.
abbrev IsTail : List ℕ → Type 0
IsTail [] = Unit
IsTail (c ∷ s) = c ≡ 0

cons-inj : {a b : ℕ} {s t : List ℕ} → a ∷ s ≡ b ∷ t → (a ≡ b) × (s ≡ t)
cons-inj e = (cc, cc)

cut_at_zero :
    (x y r t : List ℕ)
    → HasNoZero x
    → HasNoZero y
    → IsTail r
    → IsTail t
    → x ++ r ≡ y ++ t
    → (x ≡ y) × (r ≡ t)
cut_at_zero [] [] r t hx hy hr ht e = (refl, e)
cut_at_zero [] (c ∷ y) [] t hx hy hr ht e = cc
cut_at_zero [] (c ∷ y) (d ∷ r) t hx hy hr ht e = absurd (hy.0 (sym (cons-inj e).0 ∙ hr))
cut_at_zero (c ∷ x) [] r [] hx hy hr ht e = cc
cut_at_zero (c ∷ x) [] r (d ∷ t) hx hy hr ht e = absurd (hx.0 ((cons-inj e).0 ∙ ht))
cut_at_zero (c ∷ x) (d ∷ y) r t hx hy hr ht e =
    let (f, g) = cut_at_zero x y r t hx.1 hy.1 hr ht (cons-inj e).1 in
    let h : c ≡ d = (cons-inj e).0 in (cc (f, h), g)

parts_bytes-IsTail : (ps : List Text) → IsTail (parts_bytes ps)
unfolding parts_bytes
parts_bytes-IsTail [] = tt
parts_bytes-IsTail (p ∷ ps) = refl

parts_bytes-inj :
    (ps qs : List Text)
    → All HasNoZero ps
    → All HasNoZero qs
    → parts_bytes ps ≡ parts_bytes qs
    → ps ≡ qs
unfolding parts_bytes
parts_bytes-inj [] [] hp hq e = refl
parts_bytes-inj [] (q ∷ qs) hp hq e = cc
parts_bytes-inj (p ∷ ps) [] hp hq e = cc
parts_bytes-inj (p ∷ ps) (q ∷ qs) hp hq e =
    let (f, g) =
      cut_at_zero p q (parts_bytes ps) (parts_bytes qs) hp.0 hq.0 (parts_bytes-IsTail ps)
        (parts_bytes-IsTail qs) (cons-inj e).1 in
    let h : ps ≡ qs = parts_bytes-inj ps qs hp.1 hq.1 g in cc (f, h)

-- No two calls of `mac` sign the same bytes: where no domain and no part has a zero byte, equal
-- messages have the same domain and the same parts, as many of them.
pub message-inj :
    (d e : Text) (ps qs : List Text)
    → HasNoZero d
    → HasNoZero e
    → All HasNoZero ps
    → All HasNoZero qs
    → message d ps ≡ message e qs
    → (d ≡ e) × (ps ≡ qs)
unfolding message
message-inj d e ps qs hd he hp hq h =
    let (f, g) =
      cut_at_zero d e (parts_bytes ps) (parts_bytes qs) hd he (parts_bytes-IsTail ps)
        (parts_bytes-IsTail qs) h in
    (f, parts_bytes-inj ps qs hp hq g)
