-- ===== src/Play/Link.antt =====
-- What a session may take of the link and of the box's uplink: `over`, `budgeted_max_bitrate` and
-- `other_remote_bps` of src/session.rs. The registry is a list of its sessions; its order says nothing.
use den_remux.Prelude.{ℕ, ◌+◌, ◌-◌, ◌≤◌, ◌<◌, ◌≡◌, arith, min, Bool, false}
use den_remux.Prelude.{List, [], ◌∷◌, Option, none, some, ltb, if◌then◌else◌}
use den_remux.Text.{Text, same}

pub record Need : Type 0 where
  pub bitrate : ℕ
  pub indexed : Bool

-- The fields of `Session` that are read here.
pub record Session : Type 0 where
  pub sid : Text
  pub max_bitrate : Option ℕ
  pub need : Option Need

unfoldable pub over : Option ℕ → Option Need → Bool
over none need = false
over (some limit) none = false
over (some limit) (some need) = ltb limit need.bitrate

unfoldable pub budgeted_max_bitrate : Option ℕ → Option ℕ → ℕ → Option ℕ
budgeted_max_bitrate none uplink others = none
budgeted_max_bitrate (some own) none others = some own
budgeted_max_bitrate (some own) (some uplink) others = some (min own (uplink - others))

abbrev pub needed : Option ℕ → Option Need → ℕ
needed none need = 0
needed (some limit) none = 0
needed (some limit) (some need) = need.bitrate

-- What a session counts for, if it is another one.
abbrev pub counted : Text → Session → ℕ
counted exclude s = if same s.sid exclude then 0 else needed s.max_bitrate s.need

unfoldable pub other_remote_bps : List Session → Text → ℕ
other_remote_bps [] exclude = 0
other_remote_bps (s ∷ ss) exclude = counted exclude s + other_remote_bps ss exclude

-- A release of a known positive bitrate that is not over what the uplink leaves a remote player has
-- a bitrate of at most the player's own link, and fits into the uplink together with what the other
-- open remote sessions need.
pub over-budgeted :
    (own uplink bitrate : ℕ) (indexed : Bool) (ss : List Session) (sid : Text)
    → 0 < bitrate
    → over
        (budgeted_max_bitrate (some own) (some uplink) (other_remote_bps ss sid))
        (some (record { bitrate = bitrate; indexed = indexed }))
      ≡ false
    → (bitrate ≤ own) × (bitrate + other_remote_bps ss sid ≤ uplink)
unfolding over budgeted_max_bitrate
over-budgeted own uplink bitrate indexed ss sid h e = ground arith
