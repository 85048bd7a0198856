-- ===== src/Scan/Runs.antt =====
-- Runs of the scan queue over two episodes.
use den_remux.Prelude.{◌≡◌, refl, arith, true, List, [], ◌∷◌, ◌++◌, none, some}
use den_remux.Prelude.{
  ltb, filter_map, find_map, retain, ℕ, ◌+◌, ◌-◌, if◌then◌else◌, ◌==◌, leb, min, max,
}
use den_remux.Text.{codes}
use den_remux.Prelude.Floats.{Floats}
use den_remux.Scan.Match.{
  cut, cut_from, behind, extend, difference, refine_intro_tail, secs, longest_shared, best_of,
  contiguous, runs_loop, all_shifts, insert_shifts, insert_shift, shifts_of, near, position,
  inverted, inverted_from, insert_point, zip, differing, longer, seconds,
}
use den_remux.Scan.Match.Episodes.{pair_intro, shared_intro, Season, Prints, match_episodes}
use den_remux.Scan.Match.Episodes.Slices.{IsReturned, match_episodes-IsReturned}
use den_remux.Scan.Queue.{Episode, Inner, idle, enqueue, contains}
use den_remux.Scan.Queue.Order.{
  Event, ask, turn, budget, all_left, all_added, run, turns, run-order,
}
use den_remux.Scan.Queue.Turns.{enqueue-leaves}

abbrev pilot : Episode
pilot = record { imdb = codes "tt1"; season = 1; episode = 1 }

abbrev second : Episode
second = record { imdb = codes "tt1"; season = 1; episode = 2 }

-- Asked for at noon on day 1, where 5 a day are allowed.
abbrev one_waits : Inner
one_waits = (enqueue idle pilot 5 (some (codes "install")) 129600).0

abbrev events : List Event
events = ask second none 129700 ∷ turn ∷ budget 129700 ∷ turn ∷ []

run-order_example :
    all_left 5 events one_waits ++ (run 5 events one_waits).queue
    ≡ one_waits.queue ++ all_added 5 events one_waits
run-order_example = run-order 5 events one_waits

enqueue-leaves_example :
    contains pilot (all_left 5 events (enqueue idle pilot 5 none 129600).0) ≡ true
enqueue-leaves_example =
    enqueue-leaves idle pilot 5 none 129600 events (unfold enqueue contains in refl)
      (unfold enqueue contains turns in omega arith)

-- Seconds in whole numbers, a point a second.
abbrev seconds_only : Floats
seconds_only = record {
  F = ℕ;
  of_nat = λ n. n;
  literal = λ n d. if d == 0 then 0 else n;
  plus = λ x y. x + y;
  minus = λ x y. x - y;
  times = λ x y. x;
  over = λ x y. 1;
  least = min;
  greatest = max;
  round = λ x. x;
  floor = λ x. x;
  ceil = λ x. x;
  at_most = leb;
  less = ltb;
  round_down = λ x. x;
  magnitude = λ x. x;
  in_order = leb;
  infinity = 1000000;
}

abbrev song : List ℕ
song = 11 ∷ 22 ∷ 33 ∷ 44 ∷ []

abbrev long_song : List ℕ
long_song =
    1000 ∷ 2000 ∷ 3000 ∷ 4000 ∷ 5000 ∷ 6000 ∷ 7000 ∷ 8000 ∷ 9000 ∷ 10000 ∷ 11000 ∷ 12000 ∷ 13000
    ∷ 14000 ∷ 15000 ∷ 16000 ∷ 17000 ∷ []

-- The last points differ in eight bits.
abbrev heard : Prints seconds_only
heard = record {
  duration = 90;
  intro = 7 ∷ (long_song ++ (0xF000000 ∷ []));
  credits = [];
  credits_start = 80;
}

abbrev other : Prints seconds_only
other = record {
  duration = 90;
  intro = long_song ++ (0xF0000FF ∷ []);
  credits = [];
  credits_start = 80;
}

abbrev unknown : Season
unknown = record { intro = none; credits = none; intro_method = [] }

match_episodes-IsReturned_example :
    IsReturned (match_episodes seconds_only unknown heard (some other))
match_episodes-IsReturned_example =
    match_episodes-IsReturned seconds_only (omega arith) unknown heard (some other)

-- They share an intro, and its end is extended by the point that is less alike.
shared_intro_there :
    pair_intro seconds_only heard other ≡ some (some (record { a = (1, 18); b = (0, 17) }))
unfolding pair_intro shared_intro refine_intro_tail extend behind difference longest_shared best_of
    contiguous runs_loop all_shifts insert_shifts insert_shift shifts_of near position inverted
    inverted_from insert_point zip differing longer seconds secs filter_map find_map retain cut_from
    cut
shared_intro_there = refl

-- The song is found a point later in the one than in the other.
shared_song :
    longest_shared seconds_only (7 ∷ song) song 2 ≡ some (some (record { a = (1, 4); b = (0, 3) }))
unfolding longest_shared best_of contiguous runs_loop all_shifts insert_shifts insert_shift
    shifts_of near position inverted inverted_from insert_point zip differing longer seconds
    filter_map find_map retain cut_from cut
shared_song = refl
