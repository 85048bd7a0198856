-- ===== src/Redact/Paths.antt =====
-- That the path of a session is shown without its signature.
use den_remux.Prelude.{◌≡◌, refl, true, ◌∷◌, ◌++◌, some, take, if◌then◌else◌}
use den_remux.Text.{Text, codes, strip_prefix, same}
use den_remux.Text.Decimal.{split_once-append}
use den_remux.Text.Split.Print.{IsPiece}
use den_remux.Auth.{is_id}
use den_remux.Http.Files.{is_session_file, is_named}
use den_remux.Redact.{
  shown_sid, shown_file, shown_session, session_path, unrouted_or_session, segments_or_session,
  path,
}

-- A session's path, as a player asks for it.
abbrev pub session_url : Text → Text → Text → Text
session_url sid sig file = codes "/remux/s/" ++ (sid ++ (b'/' ∷ (sig ++ (b'/' ∷ file))))

path-session_url :
    (sid sig file : Text)
    → path (session_url sid sig file)
      ≡ unrouted_or_session (some (sid ++ (b'/' ∷ (sig ++ (b'/' ∷ file)))))
unfolding path same is_named strip_prefix segments_or_session
path-session_url sid sig file = refl

path_shown :
    (sid sig file : Text)
    → IsPiece b'/' sid
    → IsPiece b'/' sig
    → path (session_url sid sig file)
      ≡ shown_session sid (if is_session_file file then b'/' ∷ file else codes "/<file>")
unfolding unrouted_or_session session_path shown_file
path_shown sid sig file p q =
    rw
      (
        path-session_url sid sig file,
        split_once-append b'/' sid (sig ++ (b'/' ∷ file)) p,
        split_once-append b'/' sig file q,
      )
      refl

-- What the log shows of a session's path does not depend on its signature, nor on the id behind its
-- first six characters: the ids are valid, and no id or signature has a slash.
pub path_hides_signature :
    (sid other sig forged file : Text)
    → IsPiece b'/' sid
    → IsPiece b'/' other
    → IsPiece b'/' sig
    → IsPiece b'/' forged
    → is_id sid ≡ true
    → is_id other ≡ true
    → take 6 sid ≡ take 6 other
    → path (session_url sid sig file) ≡ path (session_url other forged file)
unfolding shown_session shown_sid
path_hides_signature sid other sig forged file p q r s i j e =
    rw (path_shown sid sig file p r, path_shown other forged file q s, i, j, e) refl
