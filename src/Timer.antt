-- ===== src/Timer.antt =====
-- The daily timers: `FreshThread::run` of src/dyeing_handler.cc, which reloads the day's users,
-- and `ClearThread::run` of src/fresh_kafka.cc, which clears the queue of new users. A round is
-- ten minutes of sleep and then two readings of the hour of `localtime`, below 24.
pub mod Daily
use ab_dyeing.Base.{
  ℕ, ◌+◌, Bool, true, false, ◌&&◌, not, List, [], ◌∷◌, Bytes, eqb, ◌==◌, if◌then◌else◌,
}
use ab_dyeing.Util.Decimal.{show}

-- `getAbTimeOfHour(now)` at the hour `tm_hour`.
unfoldable pub ab_time_of_hour : Bool → ℕ → Bytes
unfolding show
ab_time_of_hour now tm_hour =
    if now then show tm_hour else if tm_hour == 23 then show 0 else show (tm_hour + 1)

-- The two hours that a round reads.
pub record Round : Type 0 where
  pub first : ℕ
  pub second : ℕ

-- The two tests at the end of a round: does the timer fire, and `_fresh_tags` after it.
unfoldable pub fires : Bytes → Bool → Round → Bool
unfolding ab_time_of_hour eqb
fires fresh_hour tags r = eqb fresh_hour (ab_time_of_hour true r.first) && tags

unfoldable pub next_tags : Bytes → Bool → Round → Bool
unfolding fires
next_tags fresh_hour tags r =
    if eqb fresh_hour (ab_time_of_hour false r.second)
    then true
    else (if fires fresh_hour tags r then false else tags)

-- `ClearThread::run`: for each round, whether it clears.
unfoldable pub clear_run : Bytes → Bool → List Round → List Bool
unfolding next_tags
clear_run fresh_hour tags [] = []
clear_run fresh_hour tags (r ∷ rs) =
    fires fresh_hour tags r ∷ clear_run fresh_hour (next_tags fresh_hour tags r) rs

-- `FreshThread::run`: the reloads of each round, the one before the first sleep included.
unfoldable pub fresh_run : Bytes → Bool → Bool → List Round → List (Bool × Bool)
unfolding next_tags
fresh_run fresh_hour init_mysql tags [] = []
fresh_run fresh_hour init_mysql tags (r ∷ rs) =
    (not init_mysql, fires fresh_hour tags r)
    ∷ fresh_run fresh_hour true (next_tags fresh_hour tags r) rs
