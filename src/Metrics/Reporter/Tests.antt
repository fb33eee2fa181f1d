-- ===== src/Metrics/Reporter/Tests.antt =====
-- Reporters at concrete inputs.
use uav.Base.{ℕ, ◌*◌, ◌/◌, ◌≡◌, refl, ltb, some, none, true, [], ◌∷◌, ◌++◌, length, arith}
use uav.Metrics.Collector.{Collector, new_collector}
use uav.Metrics.Snapshot.{Floats, MetricsSnapshot}
use uav.Metrics.Snapshot.Export.{Printing, csv_header, csv_row}
use uav.Metrics.Reporter.{
  Io, Reporter, with_csv_output, new_reporter, report_all, stop_reporter, Moment,
}
use uav.Metrics.Reporter.Files.{reported, report_all-csv}
use uav.Metrics.Reporter.Runs.{smooth, Run, run_all, all_rows, run_all-csv}

-- Natural numbers of thousandths in place of float64.
abbrev thousandths : Floats
thousandths = record {
  Float = ℕ;
  zero_float = 0;
  of_uint = λ n. n * 1000;
  of_int = λ n. n * 1000;
  divide = λ x y. x * 1000 / y;
  less = ltb;
  milli = 1;
  seconds = λ ms. ms;
  p50 = 500;
  p95 = 950;
  p99 = 990;
  scaled = λ p k. p * k / 1000;
}

-- Every number prints as "7", and a line has a byte for each field.
abbrev sevens : Printing thousandths
sevens = record {
  decimal = λ n. "7";
  wide = λ k n. "7";
  narrow = λ k n. "7";
  fixed = λ k x. "7";
  rfc3339 = λ t. "7";
  times = λ x y. x * y / 1000;
  hundred = 100000;
  kibi = 1024000;
  csv_line = λ fields. length fields ∷ [];
  json = λ s. none;
}

abbrev drone : Collector
drone = new_collector 5 1000

-- The first attempt to open the file fails.
abbrev failing : Io
failing = record smooth { open_error = some "permission denied" }

abbrev moment : Io → ℕ → Moment thousandths sevens
moment io now = record { io = io; now = now; collector = drone }

abbrev reporter : Reporter
reporter = new_reporter [] (with_csv_output "node_5_metrics.csv" ∷ [])

report_all-csv_example :
    (report_all thousandths sevens (moment failing 2000 ∷ moment smooth 3000 ∷ []) reporter).csv
    ≡ [] ++ reported thousandths sevens [] (moment failing 2000 ∷ moment smooth 3000 ∷ [])
unfolding new_reporter
report_all-csv_example =
    report_all-csv thousandths sevens (moment failing 2000 ∷ moment smooth 3000 ∷ []) reporter refl
      refl

abbrev morning : Run
morning = record { ticks = (2000, drone) ∷ (7000, drone) ∷ []; last = (8000, drone) }

abbrev evening : Run
evening = record { ticks = []; last = (9000, drone) }

run_all-csv_example :
    run_all thousandths sevens "node_5_metrics.csv" (morning ∷ evening ∷ []) []
    ≡ some (25 ∷ [] ++ all_rows thousandths sevens (morning ∷ evening ∷ []))
unfolding csv_header
run_all-csv_example =
    run_all-csv thousandths sevens "node_5_metrics.csv" morning (evening ∷ []) refl (omega arith)

-- The header and a row have 25 columns each.
header_width : length csv_header ≡ 25
unfolding csv_header
header_width = refl

row_width : (f : Floats) (p : Printing f) (s : MetricsSnapshot f) → length (csv_row f p s) ≡ 25
unfolding csv_row
row_width f p s = refl

-- A second Stop panics.
stopped_twice :
    (f : Floats) (p : Printing f) (finals : ℕ → Moment f p) (r : Reporter)
    → r.stopping ≡ true
    → stop_reporter f p finals r ≡ none
unfolding stop_reporter
stopped_twice f p finals r gone = simp (gone)
