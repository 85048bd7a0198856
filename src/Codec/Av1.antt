-- ===== src/Codec/Av1.antt =====
-- The sequence header of an AV1 stream, src/probe/mod.rs: `sequence_colour`, and `av1_sequence_colour`,
-- which finds it among the OBUs of an `av1C` record.
use den_remux.Prelude.{ℕ, zero, suc, ◌+◌, ◌*◌, ◌/◌, ◌%◌, ◌^◌, ◌-◌, Bool, true, false, ◌&&◌, not}
use den_remux.Prelude.{
  List, [], ◌∷◌, Option, none, some, ◌>>=◌ as and_then, ltb, ◌==◌, length, take, drop, get_elem?,
}
use den_remux.Prelude.{if◌then◌else◌}
use den_remux.Bytes.{checked_add}
use den_remux.Codec.Bits.{
  Bits, done, ◌>>=◌, ◌>>◌, read, flag, uvlc, times, when, over, read_from_start,
}
use den_remux.Codec.Colour.{Colour, silent}

-- `if test && r.flag()? { step?; }`
abbrev pub when_flag : Bool → Bits (Unit {0}) → Bits (Unit {0})
when_flag test step = when test (flag >>= λ f. when f step)

-- The timing information, where there is some: whether it has a decoder model, and the bits of a delay.
unfoldable pub decoder_model : Bool → Bits (Bool × ℕ)
decoder_model false = done (false, 0)
decoder_model true = do bits ← read 5; read (32 + 5 + 5); done (true, bits + 1)

unfoldable pub timing_info : Bool → Bits (Bool × ℕ)
timing_info false = done (false, 0)
timing_info true = do
  read 64
  equal ← flag
  when equal (over uvlc)
  model ← flag
  decoder_model model

unfoldable pub operating_point : Bool × ℕ → Bool → Bits (Unit {0})
operating_point (model, delay_bits) display_delay = do
  read 12
  level ← read 5
  when (ltb 7 level) (over (read 1))
  when_flag model (over (read (2 * delay_bits + 1)))
  when_flag display_delay (over (read 4))

unfoldable pub operating_points : Bool → Bits (Unit {0})
operating_points true = over (read 5)
operating_points false = do
  present ← flag
  model ← timing_info present
  display_delay ← flag
  n ← read 5
  times (n + 1) (operating_point model display_delay)

-- `if r.flag()? { 2 } else { r.read(1)? }`
abbrev pub screen_content : Bits ℕ
screen_content = flag >>= λ chosen. elim chosen [ true ↦ done 2 | false ↦ read 1 ]

-- `if screen_content > 0 && !r.flag()? { r.read(1)?; }`
abbrev pub integer_mv : ℕ → Bits (Unit {0})
integer_mv content = when (ltb 0 content) (flag >>= λ chosen. when (not chosen) (over (read 1)))

unfoldable pub tools : Bits (Unit {0})
tools = do
  read 4
  order_hint ← flag
  when order_hint (over (read 2))
  content ← screen_content
  integer_mv content
  when order_hint (over (read 3))

-- `profile != 1 && r.flag()?`
abbrev pub monochrome : ℕ → Bits Bool
monochrome profile = if profile == 1 then done false else flag

unfoldable pub described : Bool → Bits Colour
described false = done silent
described true = do
  primaries ← read 8
  transfer ← read 8
  matrix ← read 8
  done (record { primaries = primaries; transfer = transfer; matrix = matrix; full_range = none })

-- sRGB: the code points (1, 13, 0).
abbrev pub is_srgb : Bool → Colour → Bool
is_srgb mono c = not mono && (c.primaries == 1) && (c.transfer == 13) && (c.matrix == 0)

-- `srgb || r.flag()?`
abbrev pub range_of : Bool → Bits Bool
range_of srgb = if srgb then done true else flag

unfoldable pub colour_config : ℕ → Bits Colour
colour_config profile = do
  high_bitdepth ← flag
  when ((profile == 2) && high_bitdepth) (over (read 1))
  mono ← monochrome profile
  present ← flag
  colour ← described present
  full ← range_of (is_srgb mono colour)
  done (record colour { full_range = some full })

unfoldable pub sequence_header : Bits Colour
sequence_header = do
  profile ← read 3
  flag
  reduced ← flag
  operating_points reduced
  width ← read 4
  height ← read 4
  read (width + 1 + (height + 1))
  when_flag (not reduced) (over (read (4 + 3)))
  read 3
  when (not reduced) tools
  read 3
  colour_config profile

unfoldable pub sequence_colour : List ℕ → Option Colour
sequence_colour payload = read_from_start sequence_header payload

-- A leb128 size of eight bytes at most: the size, and where it ends.
unfoldable pub leb128 : ℕ → ℕ → List ℕ → ℕ → ℕ → Option (ℕ × ℕ)
leb128 zero i obus at size = some (size, at)
leb128 (suc rounds) i obus at size = and_then (get_elem? obus at) (λ byte.
    let size' = size + byte % 128 * 2 ^ (7 * i) in
    elim (byte / 128 % 2 == 0) [
      | true ↦ some (size', at + 1)
      | false ↦ leb128 rounds (i + 1) obus (at + 1) size'
    ])

-- The payload's size, and where it begins: with a size of its own, or to the end.
unfoldable pub obu_size : List ℕ → ℕ → ℕ → Option (ℕ × ℕ)
obu_size obus head at =
    if head / 2 % 2 == 1
    then leb128 8 0 obus at 0
    else if ltb (length obus) at
    then none
    else some (length obus - at, at)

-- `obus.get(at..at.checked_add(size)?)?`, with where it ends.
unfoldable pub obu_payload : List ℕ → ℕ × ℕ → Option (List ℕ × ℕ)
obu_payload obus (size, at) =
    and_then (checked_add at size)
      (λ end. if ltb (length obus) end then none else some (take size (drop at obus), end))

unfoldable pub obus_loop : ℕ → List ℕ → Option Colour
obus_loop zero obus = none
obus_loop (suc fuel) [] = none
obus_loop (suc fuel) (head ∷ rest) =
    and_then (obu_size (head ∷ rest) head (1 + head / 4 % 2)) (λ size.
      and_then (obu_payload (head ∷ rest) size) (λ p. elim (head / 8 % 16 == 1) [
        | true ↦ sequence_colour p.0
        | false ↦ obus_loop fuel (drop p.1 (head ∷ rest))
      ]))

-- An OBU takes a byte at least.
unfoldable pub av1_sequence_colour : List ℕ → Option Colour
av1_sequence_colour obus = obus_loop (length obus) obus
