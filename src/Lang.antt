-- ===== src/Lang.antt =====
-- Language tags and the audio track that a session plays, src/lang.rs. A tag is ASCII.
pub mod Canonical
pub mod Picked
pub mod Runs
use Prim.Native.String.{String}
use den_remux.Prelude.{
  ℕ, zero, suc, Bool, true, false, not, ◌&&◌, ◌||◌, List, [], ◌∷◌, Option, none, some, ltb, ◌==◌,
  if◌then◌else◌, find, retain,
}
use den_remux.Text.{Text, codes, same, to_lower}

pub record Lang : Type 0 where
  pub two : Text
  pub bibliographic : Text
  pub terminological : Text
  pub english : Text

abbrev lang : String → String → String → String → Lang
lang a b t n = record {
  two = codes a;
  bibliographic = codes b;
  terminological = codes t;
  english = codes n;
}

-- `LANGS`
unfoldable pub langs : List Lang
langs =
    lang "en" "eng" "eng" "English"
    ∷ lang "fi" "fin" "fin" "Finnish"
    ∷ lang "sv" "swe" "swe" "Swedish"
    ∷ lang "no" "nor" "nor" "Norwegian"
    ∷ lang "nb" "nob" "nob" "Norwegian"
    ∷ lang "nn" "nno" "nno" "Norwegian"
    ∷ lang "da" "dan" "dan" "Danish"
    ∷ lang "is" "ice" "isl" "Icelandic"
    ∷ lang "de" "ger" "deu" "German"
    ∷ lang "fr" "fre" "fra" "French"
    ∷ lang "es" "spa" "spa" "Spanish"
    ∷ lang "it" "ita" "ita" "Italian"
    ∷ lang "pt" "por" "por" "Portuguese"
    ∷ lang "nl" "dut" "nld" "Dutch"
    ∷ lang "pl" "pol" "pol" "Polish"
    ∷ lang "cs" "cze" "ces" "Czech"
    ∷ lang "sk" "slo" "slk" "Slovak"
    ∷ lang "hu" "hun" "hun" "Hungarian"
    ∷ lang "ro" "rum" "ron" "Romanian"
    ∷ lang "bg" "bul" "bul" "Bulgarian"
    ∷ lang "hr" "hrv" "hrv" "Croatian"
    ∷ lang "sr" "srp" "srp" "Serbian"
    ∷ lang "sl" "slv" "slv" "Slovenian"
    ∷ lang "el" "gre" "ell" "Greek"
    ∷ lang "tr" "tur" "tur" "Turkish"
    ∷ lang "ru" "rus" "rus" "Russian"
    ∷ lang "uk" "ukr" "ukr" "Ukrainian"
    ∷ lang "et" "est" "est" "Estonian"
    ∷ lang "lv" "lav" "lav" "Latvian"
    ∷ lang "lt" "lit" "lit" "Lithuanian"
    ∷ lang "ar" "ara" "ara" "Arabic"
    ∷ lang "he" "heb" "heb" "Hebrew"
    ∷ lang "fa" "per" "fas" "Persian"
    ∷ lang "hi" "hin" "hin" "Hindi"
    ∷ lang "ta" "tam" "tam" "Tamil"
    ∷ lang "te" "tel" "tel" "Telugu"
    ∷ lang "ja" "jpn" "jpn" "Japanese"
    ∷ lang "ko" "kor" "kor" "Korean"
    ∷ lang "zh" "chi" "zho" "Chinese"
    ∷ lang "th" "tha" "tha" "Thai"
    ∷ lang "vi" "vie" "vie" "Vietnamese"
    ∷ lang "id" "ind" "ind" "Indonesian"
    ∷ lang "ms" "may" "msa" "Malay"
    ∷ []

-- `tag.split(['-', '_']).next()`
unfoldable pub primary : Text → Text
primary [] = []
primary (c ∷ s) = elim ((c == b'-') || (c == b'_')) [ true ↦ [] | false ↦ c ∷ primary s ]

unfoldable pub is_spelled : Text → Lang → Bool
is_spelled t l = same t l.two || (same t l.bibliographic || same t l.terminological)

unfoldable pub entry : Text → Option Lang
entry tag = find (is_spelled (to_lower (primary tag))) langs

abbrev pub code_of : Lang → Text
code_of l = if same l.two (codes "nb") || same l.two (codes "nn") then codes "no" else l.two

abbrev pub canonical_of : Option Lang → Text → Text
canonical_of none tag = to_lower (primary tag)
canonical_of (some l) tag = code_of l

unfoldable pub canonical : Text → Text
canonical tag = canonical_of (entry tag) tag

abbrev pub name_of : Option Lang → Text → Text
name_of none tag = tag
name_of (some l) tag = l.english

-- `subs::UNDETERMINED` is `und`.
unfoldable pub name : Text → Text
name tag = if same tag (codes "und") then codes "Unknown" else name_of (entry tag) tag

pub data AudioReason : Type 0 where
  explicit : AudioReason
  preferred : Text → AudioReason
  by_default : AudioReason
  first : AudioReason

-- The fields of `AudioTrack` that the choice reads.
pub record AudioTrack : Type 0 where
  pub language : Option Text
  pub default : Bool
  pub commentary : Bool

-- `tracks.iter().enumerate()`, from an index on.
unfoldable pub enumerate : ℕ → List AudioTrack → List (ℕ × AudioTrack)
enumerate i [] = []
enumerate i (t ∷ ts) = (i, t) ∷ enumerate (suc i) ts

unfoldable pub usable : List AudioTrack → List (ℕ × AudioTrack)
usable tracks = retain (λ c. not c.1.commentary) (enumerate 0 tracks)

-- The order of the keys `(!t.default, i)`.
abbrev pub key_less : ℕ × AudioTrack → ℕ × AudioTrack → Bool
key_less (i, s) (j, t) =
    (s.default && not t.default) || (not (not s.default && t.default) && ltb i j)

-- `min_by_key`, with the least so far.
unfoldable pub least : ℕ × AudioTrack → List (ℕ × AudioTrack) → ℕ × AudioTrack
least best [] = best
least best (c ∷ cs) = least (if key_less c best then c else best) cs

unfoldable pub min_by_key : List (ℕ × AudioTrack) → Option (ℕ × AudioTrack)
min_by_key [] = none
min_by_key (c ∷ cs) = some (least c cs)

abbrev pub is_in : Text → Option Text → Bool
is_in want none = false
is_in want (some l) = same (canonical l) want

unfoldable pub best_in : List AudioTrack → Text → Option (ℕ × AudioTrack)
best_in tracks want = min_by_key (retain (λ c. is_in want c.1.language) (usable tracks))

abbrev pub fallback : Option (ℕ × AudioTrack) → ℕ × AudioReason
fallback none = (0, first)
fallback (some (i, t)) = if t.default then (i, by_default) else (i, first)

unfoldable pub pick_audio : List AudioTrack → List Text → ℕ × AudioReason
pick_audio tracks [] = fallback (min_by_key (usable tracks))
pick_audio tracks (p ∷ prefs) = elim (best_in tracks (canonical p)) [
  | none ↦ pick_audio tracks prefs
  | some c ↦ (c.0, preferred (canonical p))
]
