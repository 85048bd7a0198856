-- ===== src/Redact.antt =====
-- `path` and `request_id` of src/redact.rs: what the log may show of a request.
pub mod Paths
pub mod Runs
use den_remux.Prelude.{
  ℕ, Bool, ◌||◌, List, [], ◌∷◌, ◌++◌, Option, none, some, ◌>>=◌, ◌==◌, take, retain, if◌then◌else◌,
}
use den_remux.Text.{Text, codes, strip_prefix, split_once}
use den_remux.Auth.{is_id, is_alphanumeric}
use den_remux.Http.Files.{is_named, is_session_file}

abbrev pub routes : List Text
routes =
    codes "/health"
    ∷ codes "/remux/health"
    ∷ codes "/metrics"
    ∷ codes "/remux/login"
    ∷ codes "/remux/session"
    ∷ codes "/remux/releases"
    ∷ codes "/remux/segments/scan"
    ∷ []

unfoldable pub shown_sid : Text → Text
shown_sid sid = if is_id sid then take 6 sid else codes "<bad>"

unfoldable pub shown_file : Option (Text × Text) → Text
shown_file none = []
shown_file (some (sig, file)) = if is_session_file file then b'/' ∷ file else codes "/<file>"

-- The ellipsis is U+2026.
unfoldable pub shown_session : Text → Text → Text
shown_session sid file = codes "/remux/s/" ++ (shown_sid sid ++ (8230 ∷ (codes "/<sig>" ++ file)))

-- The pieces of `splitn(3, '/')`.
unfoldable pub session_path : Text → Option (Text × Text) → Text
session_path rest none = shown_session rest []
session_path rest (some (sid, behind)) = shown_session sid (shown_file (split_once b'/' behind))

unfoldable pub unrouted_or_session : Option Text → Text
unrouted_or_session none = codes "/<unrouted>"
unrouted_or_session (some rest) = session_path rest (split_once b'/' rest)

unfoldable pub segments_or_session : Text → Option Text → Text
segments_or_session p none = unrouted_or_session (strip_prefix (codes "/remux/s/") p)
segments_or_session p (some episode) = codes "/remux/segments/<episode>"

unfoldable pub path : Text → Text
path p =
    if is_named p routes
    then p
    else segments_or_session p (strip_prefix (codes "/remux/segments/") p)

abbrev pub is_id_char : ℕ → Bool
is_id_char c = is_alphanumeric c || ((c == b'-') || (c == b'_'))

unfoldable pub some_text : Text → Option Text
some_text [] = none
some_text (c ∷ s) = some (c ∷ s)

-- `none` is a header that is missing or no visible ASCII.
unfoldable pub request_id : Option Text → Option Text
request_id header = header >>= λ raw. some_text (take 32 (retain is_id_char raw))
