-- ===== src/Timer/Daily.antt =====
-- How often a timer fires.
use ab_dyeing.Base.{
  ℕ, ◌+◌, ◌<◌, ◌≡◌, ◌≢◌, refl, ap, Bool, true, false, ◌&&◌, ◌||◌, List, [], ◌∷◌, Bytes, All, map,
  eqb, eqb_iff, if◌then◌else◌, arith,
}
use ab_dyeing.Util.Decimal.{show}
use ab_dyeing.Timer.{Round, ab_time_of_hour, fires, next_tags, clear_run, fresh_run}

abbrev pub count_true : List Bool → ℕ
count_true [] = 0
count_true (b ∷ bs) = (if b then 1 else 0) + count_true bs

-- The second reading of the round is the hour before the configured one.
abbrev pub rearms : Bytes → Round → Bool
rearms fresh_hour r = eqb fresh_hour (ab_time_of_hour false r.second)

-- The first reading is the configured hour.
abbrev pub is_due : Bytes → Round → Bool
is_due fresh_hour r = eqb fresh_hour (ab_time_of_hour true r.first)

abbrev pub any_due : Bytes → List Round → Bool
any_due fresh_hour [] = false
any_due fresh_hour (r ∷ rs) = is_due fresh_hour r || any_due fresh_hour rs

-- Until the hour before the configured one comes round, the timer fires once if it is armed and a
-- round is in the configured hour, and not at all otherwise.
pub clear_run-once :
    (fresh_hour : Bytes) (tags : Bool) (rs : List Round)
    → All (λ r. rearms fresh_hour r ≡ false) rs
    → count_true (clear_run fresh_hour tags rs) ≡ (if tags && any_due fresh_hour rs then 1 else 0)
unfolding clear_run next_tags fires
clear_run-once fresh_hour tags [] h = ground arith
clear_run-once fresh_hour tags (r ∷ rs) h = ground (
  arith,
  clear_run-once fresh_hour true rs h.1,
  clear_run-once fresh_hour false rs h.1,
  clear_run-once fresh_hour tags rs h.1,
)

-- From a round that reads the hour before the configured one, the timer fires exactly once more
-- if a later round reads the configured hour before that hour comes round again, armed or not.
pub clear_run-daily :
    (fresh_hour : Bytes) (tags : Bool) (r : Round) (rs : List Round)
    → rearms fresh_hour r ≡ true
    → All (λ r. rearms fresh_hour r ≡ false) rs
    → count_true (clear_run fresh_hour tags (r ∷ rs))
      ≡ (if is_due fresh_hour r && tags then 1 else 0) + (if any_due fresh_hour rs then 1 else 0)
unfolding clear_run next_tags fires
clear_run-daily fresh_hour tags r rs e h = ground (arith, clear_run-once fresh_hour true rs h)

timed-fresh_run :
    (fresh_hour : Bytes) (i t : Bool) (rs : List Round)
    → map (λ x. x.1) (fresh_run fresh_hour i t rs) ≡ clear_run fresh_hour t rs
unfolding fresh_run clear_run
timed-fresh_run fresh_hour i t [] = refl
timed-fresh_run fresh_hour i t (r ∷ rs) =
    ap (λ l. fires fresh_hour t r ∷ l)
      (timed-fresh_run fresh_hour true (next_tags fresh_hour t r) rs)

started-fresh_run :
    (fresh_hour : Bytes) (t : Bool) (rs : List Round)
    → count_true (map (λ x. x.0) (fresh_run fresh_hour true t rs)) ≡ 0
unfolding fresh_run
started-fresh_run fresh_hour t [] = refl
started-fresh_run fresh_hour t (r ∷ rs) =
    omega (arith, started-fresh_run fresh_hour (next_tags fresh_hour t r) rs)

-- The reload timer fires in the same rounds as the clearing timer with that hour, and reloads once
-- more, before its first sleep.
pub fresh_run-clear_run :
    (fresh_hour : Bytes) (tags : Bool) (r : Round) (rs : List Round)
    → (map (λ x. x.1) (fresh_run fresh_hour false tags (r ∷ rs))
        ≡ clear_run fresh_hour tags (r ∷ rs))
      × (count_true (map (λ x. x.0) (fresh_run fresh_hour false tags (r ∷ rs))) ≡ 1)
fresh_run-clear_run fresh_hour tags r rs = (
  timed-fresh_run fresh_hour false tags (r ∷ rs),
  unfold fresh_run in omega (arith, started-fresh_run fresh_hour (next_tags fresh_hour tags r) rs),
)

-- The hours that a round reads are hours of the day.
abbrev pub InDay : Round → Type 0
InDay r = r.first < 24

-- A configured hour that is not the plain decimal of an hour of the day ("08", "24" or nothing)
-- never fires.
pub clear_run-never :
    (fresh_hour : Bytes) (tags : Bool) (rs : List Round)
    → ((n : ℕ) → n < 24 → show n ≢ fresh_hour)
    → All InDay rs
    → count_true (clear_run fresh_hour tags rs) ≡ 0
unfolding clear_run
clear_run-never fresh_hour tags [] bad h = refl
clear_run-never fresh_hour tags (r ∷ rs) bad h =
    let off : fires fresh_hour tags r ≡ false = quiet in
    omega (
      arith,
      ap {B = ℕ} (λ (b : Bool). if b then 1 else 0) off,
      clear_run-never fresh_hour (next_tags fresh_hour tags r) rs bad h.1,
    )
  where
    quiet : fires fresh_hour tags r ≡ false
    quiet =
        unfold fires ab_time_of_hour in
        ground (arith, eqb_iff fresh_hour (show r.first), bad r.first h.0)
