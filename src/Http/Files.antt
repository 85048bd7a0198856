-- ===== src/Http/Files.antt =====
-- The files of a session, by their names: `seg_index`, `sub_file` and `is_session_file` of src/session.rs.
pub mod Names
use den_remux.Prelude.{
  ℕ, ◌^◌, ◌≤◌, Bool, true, false, not, ◌&&◌, ◌||◌, List, [], ◌∷◌, Option, none, some, ◌>>=◌, ltb,
  leb, length, if◌then◌else◌,
}
use den_remux.Text.{Text, codes, same, strip_prefix, strip_suffix, split_once, is_digit, parse_u64}

abbrev pub all_digits : Text → Bool
all_digits [] = true
all_digits (c ∷ s) = is_digit c && all_digits s

-- Digits, one at least and `limit` at most, as a `usize`.
unfoldable pub digits : Text → ℕ → Option ℕ
digits [] limit = none
digits (c ∷ s) limit =
    if leb (length (c ∷ s)) limit && all_digits (c ∷ s) then parse_u64 (c ∷ s) else none

unfoldable pub seg_index : Text → Option ℕ
seg_index file = do
  rest ← strip_prefix (codes "seg") file
  n ← strip_suffix (codes ".m4s") rest
  digits n 7

pub data SubFile : Type 0 where
  playlist : ℕ → SubFile
  document : ℕ → SubFile
  window : ℕ → ℕ → SubFile

-- `subs::MAX_LANGUAGES`
abbrev pub max_languages : ℕ
max_languages = 8

unfoldable pub rendition : Text → Option ℕ
rendition s = digits s 1 >>= λ n. if ltb n max_languages then some n else none

abbrev pub vtt_file : Text → Option (Text × Text) → Option SubFile
vtt_file body none = rendition body >>= λ n. some (document n)
vtt_file body (some (n, w)) = rendition n >>= λ i. digits w 7 >>= λ v. some (window i v)

abbrev pub sub_text : Text → Option Text → Option SubFile
sub_text rest (some n) = rendition n >>= λ i. some (playlist i)
sub_text rest none =
    strip_suffix (codes ".vtt") rest >>= λ body. vtt_file body (split_once b'_' body)

unfoldable pub sub_file : Text → Option SubFile
sub_file file =
    strip_prefix (codes "sub") file >>= λ rest. sub_text rest (strip_suffix (codes ".m3u8") rest)

abbrev pub is_some {ℓ} : {A : Type ℓ} → Option A → Bool
is_some none = false
is_some (some a) = true

unfoldable pub is_named : Text → List Text → Bool
is_named file [] = false
is_named file (n ∷ ns) = same file n || is_named file ns

unfoldable pub is_session_file : Text → Bool
is_session_file file =
    is_named file (
      codes "master.m3u8"
      ∷ codes "media.m3u8"
      ∷ codes "init.mp4"
      ∷ codes "report"
      ∷ codes "heartbeat"
      ∷ codes "end"
      ∷ [])
    || (is_some (seg_index file) || is_some (sub_file file))
