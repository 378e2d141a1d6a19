-- ===== src/Tests/Daily.antt =====
-- The timers with the configured hour 2.
use ab_dyeing.Base.{
  ℕ, ◌+◌, ◌<◌, ◌≡◌, ◌≢◌, refl, ap, false, ◌&&◌, List, [], ◌∷◌, codes, eqb, All, if◌then◌else◌,
  arith,
}
use ab_dyeing.Util.Decimal.{show, atoi_u32}
use ab_dyeing.Util.Decimal.RoundTrip.{atoi_u32-show}
use ab_dyeing.Timer.{Round, ab_time_of_hour, clear_run}
use ab_dyeing.Timer.Daily.{count_true, rearms, is_due, any_due, clear_run-daily}

abbrev at_hour : ℕ → Round
at_hour h = record { first = h; second = h }

abbrev night : List Round
night = at_hour 2 ∷ at_hour 2 ∷ at_hour 3 ∷ []

night-quiet : All (λ r. rearms (codes "2") r ≡ false) night
unfolding ab_time_of_hour eqb show
night-quiet = (refl, (refl, (refl, tt)))

clear_run-daily_example :
    count_true (clear_run (codes "2") false (at_hour 1 ∷ night))
    ≡ (if is_due (codes "2") (at_hour 1) && false then 1 else 0)
      + (if any_due (codes "2") night then 1 else 0)
unfolding ab_time_of_hour eqb show
clear_run-daily_example = clear_run-daily (codes "2") false (at_hour 1) night refl night-quiet

-- "24" is the number 24, so it is not the decimal of a smaller one.
not_an_hour : (n : ℕ) → n < 24 → show n ≢ codes "24"
not_an_hour n h e = omega (arith, h, atoi_u32-show n (omega arith), ap atoi_u32 e, twenty_four)
  where
    twenty_four : atoi_u32 (codes "24") ≡ 24
    twenty_four = unfold atoi_u32 in refl
