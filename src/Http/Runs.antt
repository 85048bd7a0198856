-- ===== src/Http/Runs.antt =====
-- Runs of the served ranges, over files that are byte lists in memory.
use den_remux.Prelude.{ℕ, ◌+◌, ◌-◌, ◌≡◌, refl, false, arith, List, [], ◌∷◌, ◌++◌, some, none}
use den_remux.Prelude.{ok, leb, if◌then◌else◌, length, take, drop, Option}
use den_remux.Text.{codes, strip_prefix, split_once, contains, trim, parse_u64}
use den_remux.Text.Decimal.{print}
use den_remux.Http.Range.{RangeHeaders, wanted_range, door_range}
use den_remux.Http.Range.Print.{asks}
use den_remux.Http.ContentRange.{content_range, print_range}
use den_remux.Http.Parts.{FileOps, Parts, body, slice_parts, total, IsSized}
use den_remux.Http.Parts.Slice.{CanSeek, slice_parts-body}
use den_remux.Http.Response.{Media, Reply, answered, media_response, partial, Describes}
use den_remux.Http.Response.{media_response-honest}
use den_remux.Http.Response.Resume.{media_response-resume}

seek_list : List ℕ → ℕ → Option (List ℕ)
seek_list f n = if leb n (length f) then some (drop n f) else none

rest-seek_list : (f g : List ℕ) (n : ℕ) → seek_list f n ≡ some g → g ≡ drop n f
unfolding seek_list
rest-seek_list f g n h = ground arith

abbrev in_memory : FileOps
in_memory = record { File = List ℕ; rest = λ f. f; seek = seek_list; rest-seek = rest-seek_list }

in_memory-CanSeek : CanSeek in_memory
unfolding seek_list
in_memory-CanSeek f n h = (drop n f, ground arith)

abbrev two_files : Parts in_memory
two_files = (1 ∷ 2 ∷ 3 ∷ [], 3) ∷ (4 ∷ 5 ∷ 6 ∷ [], 2) ∷ []

abbrev segment : Media in_memory
segment = record { parts = two_files; etag = codes "\"ab\"" }

sized : IsSized in_memory two_files
sized = omega arith

abbrev from_two : RangeHeaders
from_two = record { range = some (some (codes "bytes=2-")); if_range = none }

asked : wanted_range from_two (codes "t") 5 ≡ ok (some (2, 4))
unfolding wanted_range contains split_once parse_u64 trim strip_prefix
asked = refl

door_asked : door_range (some (some (codes "bytes=2-9"))) 5 ≡ ok (some (2, 4))
unfolding door_range split_once parse_u64 trim strip_prefix
door_asked = refl

printed : content_range (codes "bytes 2-4/5") ≡ some (2, 4, 5)
unfolding content_range split_once parse_u64 strip_prefix
printed = refl

sliced : slice_parts in_memory two_files 2 3 ≡ some ((3 ∷ [], 1) ∷ (4 ∷ 5 ∷ 6 ∷ [], 1) ∷ [])
unfolding slice_parts seek_list
sliced = refl

slice_parts-body_example :
    body in_memory ((3 ∷ [], 1) ∷ (4 ∷ 5 ∷ 6 ∷ [], 1) ∷ [])
    ≡ take (3 - 2 + 1) (drop 2 (body in_memory two_files))
slice_parts-body_example =
    slice_parts-body in_memory two_files ((3 ∷ [], 1) ∷ (4 ∷ 5 ∷ 6 ∷ [], 1) ∷ []) 2 3 sized sliced

abbrev whole_reply : Reply
whole_reply = record {
  status = partial;
  content_length = 3;
  content_range = some (print_range 2 4 5);
  etag = codes "\"ab\"";
  max_age = 10;
  sent = 3 ∷ 4 ∷ 5 ∷ [];
}

replied : media_response in_memory segment false 110 from_two 100 ≡ answered whole_reply
unfolding media_response body total slice_parts seek_list wanted_range contains split_once parse_u64
    trim strip_prefix
replied = refl

media_response-honest_example :
    Describes in_memory whole_reply (body in_memory two_files)
    × (whole_reply.content_length ≡ length whole_reply.sent)
media_response-honest_example =
    media_response-honest in_memory segment 110 100 from_two whole_reply sized replied

media_response-resume_example :
    (r : Reply) × (media_response in_memory segment false 110
        (asks (print 2) [] (some (some (codes "\"ab\""))))
        100
      ≡ answered r)
    × (r.status ≡ partial)
    × (take 2 (body in_memory two_files) ++ r.sent ≡ body in_memory two_files)
media_response-resume_example =
    media_response-resume in_memory segment 2 110 100 in_memory-CanSeek sized (omega arith)
      (unfold total in omega arith) (unfold total in omega arith)
