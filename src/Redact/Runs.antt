-- ===== src/Redact/Runs.antt =====
-- Two addresses of one session, with two signatures.
use den_remux.Prelude.{◌≡◌, refl, arith}
use den_remux.Text.{Text, codes}
use den_remux.Auth.{is_id, all_of}
use den_remux.Redact.{path}
use den_remux.Redact.Paths.{session_url, path_hides_signature}

abbrev sid : Text
sid = codes "abcdef0123456789abcdef"

abbrev other : Text
other = codes "abcdefABCDEF-_ABCDEF12"

path_hides_signature_example :
    path (session_url sid (codes "s1") (codes "init.mp4"))
    ≡ path (session_url other (codes "s2") (codes "init.mp4"))
path_hides_signature_example =
    path_hides_signature sid other (codes "s1") (codes "s2") (codes "init.mp4") (ground arith)
      (ground arith) (ground arith) (ground arith) (unfold is_id all_of in refl)
      (unfold is_id all_of in refl) refl
