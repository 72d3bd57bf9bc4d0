-- ===== src/Backfill/Examples.antt =====
-- A bank without statements: one period of 31 days and a second.
use grosh.Prelude.{ℕ, ◌≤◌, ◌<◌, true, false, some, [], ◌∷◌, All, ◌≡◌, refl, arith}
use grosh.Backfill.{Reply, Progress, completed, statements, fetch_back}
use grosh.Backfill.Windows.{IsPeriod, is_covered, fetch_back-ends_covers}

abbrev silent : ℕ → ℕ → Reply ℕ
silent from_timestamp to_timestamp = statements []

fetch_back-ends_covers_example :
    (p : Progress ℕ) × (fetch_back silent 7 2 100 2_678_600 2_678_501 ≡ some p)
    × All (IsPeriod 100 2_678_501) p.periods
    × (p.ending ≡ completed → (t : ℕ) → 100 < t → t ≤ 2_678_501 → is_covered t p.periods ≡ true)
fetch_back-ends_covers_example =
    fetch_back-ends_covers silent 7 2 100 2_678_600 2_678_501 (omega arith)

-- The walk asks for one period, which starts a second after the requested start.
one_period :
    fetch_back silent 7 2 100 2 2_678_501
    ≡ some (record {
      periods = (101, 2_678_501) ∷ [];
      published = [];
      marks_error = false;
      ending = completed;
    })
unfolding fetch_back
one_period = refl

start_is_missed : is_covered 100 ((101, 2_678_501) ∷ []) ≡ false
start_is_missed = refl
