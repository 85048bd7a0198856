-- ===== src/Codec/Hevc.antt =====
-- The SPS of an HEVC stream, src/probe/mod.rs: `sps_colour` with `scaling_list_data`, `unescape`, and
-- `hevc_sps_colour`, which finds it in an `hvcC` record.
pub mod RefSets
pub mod Record
use den_remux.Prelude.{
  ℕ, zero, suc, ◌+◌, ◌*◌, ◌/◌, ◌%◌, ◌^◌, ◌-◌, min, Bool, true, false, ◌&&◌, ◌||◌, not,
}
use den_remux.Prelude.{
  List, [], ◌∷◌, ◌++◌, Option, none, some, ◌>>=◌ as and_then, ltb, ◌==◌, length, take, drop,
  get_elem?,
}
use den_remux.Prelude.{if◌then◌else◌}
use den_remux.Bytes.{be}
use den_remux.Codec.Bits.{
  Bits, done, fail, ◌>>=◌, ◌>>◌, read, flag, skip, uvlc, times, when, over, read_from_start,
}
use den_remux.Codec.Colour.{Colour, silent, colour_or}
use den_remux.Codec.Hevc.RefSets.{RefPics, short_term_ref_pic_set}

-- The sub-layers' flags: a profile, and a level.
unfoldable pub layer_flags : ℕ → Bits (List (Bool × Bool))
layer_flags zero = done []
layer_flags (suc n) = do
  profile ← flag
  level ← flag
  rest ← layer_flags n
  done ((profile, level) ∷ rest)

unfoldable pub skip_layers : List (Bool × Bool) → Bits (Unit {0})
skip_layers [] = done tt
skip_layers ((profile, level) ∷ ls) =
    skip ((if profile then 88 else 0) + (if level then 8 else 0)) >> skip_layers ls

unfoldable pub profile_tier_level : ℕ → Bits (Unit {0})
profile_tier_level sub_layers = do
  skip (88 + 8)
  present ← layer_flags sub_layers
  when (ltb 0 sub_layers) (skip (2 * (8 - sub_layers)))
  skip_layers present

-- One list of `scaling_list_data`, for a size of 0 to 3.
unfoldable pub scaling_list : ℕ → Bits (Unit {0})
scaling_list size = flag >>= λ coded. elim coded [
  | false ↦ over uvlc
  | true ↦ when (ltb 1 size) (over uvlc) >> times (min 64 (2 ^ (4 + 2 * size))) (over uvlc)
]

unfoldable pub scaling_list_data : Bits (Unit {0})
scaling_list_data =
    times 6 (scaling_list 0)
    >> times 6 (scaling_list 1)
    >> times 6 (scaling_list 2)
    >> times 2 (scaling_list 3)

-- `if r.flag()? && r.flag()? { scaling_list_data(&mut r)?; }`
abbrev pub scaling_lists : Bits (Unit {0})
scaling_lists =
    flag >>= λ enabled. when enabled (flag >>= λ present. when present scaling_list_data)

unfoldable pub pcm : Bool → Bits (Unit {0})
pcm false = done tt
pcm true = do read 8; uvlc; uvlc; over (read 1)

-- The sets, each with those before it.
unfoldable pub ref_pic_sets : ℕ → List RefPics → Bits (Unit {0})
ref_pic_sets zero sets = done tt
ref_pic_sets (suc n) sets =
    short_term_ref_pic_set sets >>= λ set. ref_pic_sets n (sets ++ (set ∷ []))

abbrev pub checked_sets : ℕ → Bits (Unit {0})
checked_sets sets = if ltb 64 sets then fail else ref_pic_sets sets []

abbrev pub long_term : ℕ → ℕ → Bits (Unit {0})
long_term poc_lsb_bits n =
    if ltb 32 n then fail else times n (over (read ((poc_lsb_bits + 1) % 2 ^ 32)))

unfoldable pub video_description : Bool → Bits Colour
video_description false = done silent
video_description true = do
  read 3
  full ← flag
  present ← flag
  elim present [
    | false ↦ done (record silent { full_range = some full })
    | true ↦ do
      primaries ← read 8
      transfer ← read 8
      matrix ← read 8
      done (record {
        primaries = primaries;
        transfer = transfer;
        matrix = matrix;
        full_range = some full;
      })
  ]

-- `if r.flag()? && r.read(8)? == 255 { r.read(32)?; }`
abbrev pub aspect_ratio : Bits (Unit {0})
aspect_ratio =
    flag >>= λ present. when present (read 8 >>= λ ratio. when (ratio == 255) (over (read 32)))

unfoldable pub vui : Bool → Bits Colour
vui false = done silent
vui true = do
  aspect_ratio
  overscan ← flag
  when overscan (over (read 1))
  present ← flag
  video_description present

unfoldable pub picture_format : Bits (Unit {0})
picture_format = do
  uvlc
  chroma ← uvlc
  when (chroma == 3) (over (read 1))
  uvlc
  uvlc
  window ← flag
  when window (times 4 (over uvlc))
  uvlc
  over uvlc

unfoldable pub coding_tools : ℕ → Bits (Unit {0})
coding_tools sub_layers = do
  all_layers ← flag
  times (if all_layers then sub_layers + 1 else 1) (times 3 (over uvlc))
  times 6 (over uvlc)
  scaling_lists
  read 2
  present ← flag
  pcm present

unfoldable pub sps : Bits Colour
sps = do
  read 4
  sub_layers ← read 3
  read 1
  profile_tier_level sub_layers
  picture_format
  poc_lsb ← uvlc
  coding_tools sub_layers
  sets ← uvlc
  checked_sets sets
  present ← flag
  when present (uvlc >>= long_term ((poc_lsb % 2 ^ 32 + 4) % 2 ^ 32))
  read 2
  described ← flag
  vui described

unfoldable pub sps_colour : List ℕ → Option Colour
sps_colour rbsp = read_from_start sps rbsp

-- `unescape`, with the zeros that stand just before.
unfoldable pub unescape_from : ℕ → List ℕ → List ℕ
unescape_from n [] = []
unescape_from n (b ∷ bs) = elim (not (ltb n 2) && (b == 3)) [
  | true ↦ unescape_from 0 bs
  | false ↦ b ∷ unescape_from (if b == 0 then n + 1 else 0) bs
]

unfoldable pub unescape : List ℕ → List ℕ
unescape = unescape_from 0

-- Two bytes as a number.
unfoldable pub u16_at : List ℕ → ℕ → Option ℕ
u16_at b at =
    and_then (get_elem? b at) (λ h. and_then (get_elem? b (at + 1)) (λ l. some (h * 256 + l)))

-- A loop that may return from the function, and else ends at a byte.
pub data Walk : Type 0 where
  returned : Option Colour → Walk
  ended_at : ℕ → Walk

abbrev pub or_return : {A : Type 0} → Option A → (A → Walk) → Walk
or_return none k = returned none
or_return (some a) k = k a

-- `hvcc.get(start..start + len)`
unfoldable pub slice : List ℕ → ℕ → ℕ → Option (List ℕ)
slice b start len = if ltb (length b) (start + len) then none else some (take len (drop start b))

-- `sps_colour(&unescape(nal.get(2..)?))`
unfoldable pub sps_of_nal : List ℕ → Option Colour
sps_of_nal nal = if ltb (length nal) 2 then none else sps_colour (unescape (drop 2 nal))

unfoldable pub nals_loop : ℕ → List ℕ → ℕ → ℕ → Walk
nals_loop zero hvcc kind at = ended_at at
nals_loop (suc n) hvcc kind at = or_return (u16_at hvcc at) (λ len.
    or_return (slice hvcc (at + 2) len) (λ nal. elim (kind == 33) [
      | true ↦ returned (sps_of_nal nal)
      | false ↦ nals_loop n hvcc kind (at + 2 + len)
    ]))

abbrev pub after_walk : Walk → (ℕ → Option Colour) → Option Colour
after_walk (returned o) k = o
after_walk (ended_at at) k = k at

unfoldable pub arrays_loop : ℕ → List ℕ → ℕ → Option Colour
arrays_loop zero hvcc at = none
arrays_loop (suc n) hvcc at = and_then (get_elem? hvcc at) (λ head.
    and_then (u16_at hvcc (at + 1))
      (λ count. after_walk (nals_loop count hvcc (head % 64) (at + 3)) (arrays_loop n hvcc)))

unfoldable pub hevc_sps_colour : List ℕ → Option Colour
hevc_sps_colour hvcc = and_then (get_elem? hvcc 22) (λ n. arrays_loop n hvcc 23)

unfoldable pub hevc_colour : List ℕ → Colour → Colour
hevc_colour hvcc container = elim (hevc_sps_colour hvcc) [
  | none ↦ colour_or container silent
  | some c ↦ colour_or container c
]
