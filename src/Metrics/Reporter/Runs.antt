-- ===== src/Metrics/Reporter/Runs.antt =====
-- Nodes that report into one CSV file, one after the other.
use uav.Base.{
  ℕ, ◌<◌, ◌≡◌, refl, sym, ap, ◌∙◌, ◌==◌, true, false, Option, none, some, String, List, [], ◌∷◌,
  ◌++◌, append-nil, append_assoc, length, str_eq, arith, map,
}
use uav.Metrics.Collector.{Collector}
use uav.Metrics.Snapshot.{Floats}
use uav.Metrics.Snapshot.Export.{Printing, csv_header}
use uav.Metrics.Reporter.{
  unopened, Io, Reporter, with_csv_output, new_reporter, start_reporter, Moment, report_at,
  report_all, last_reports, stop_reporter,
}
use uav.Metrics.Reporter.Files.{
  row_of, rows, heading, report_at-opened, report_at-unopened, report_all-first,
}

-- A system that opens the file and takes what is written.
abbrev pub smooth : Io
smooth = record {
  open_error = none;
  stats = true;
  header_taken = λ bytes. bytes;
  row_taken = λ bytes. bytes;
}

-- When a node reports, and of which collector: at the ticks, and once more when it stops.
pub record Run : Type 0 where
  pub ticks : List (ℕ × Collector)
  pub last : ℕ × Collector

length-append-old : (xs ys : List ℕ) → (length xs == 0) ≡ false → (length (xs ++ ys) == 0) ≡ false
length-append-old [] ys old = absurd (cc)
length-append-old (x ∷ xs) ys old = ground arith

module _ (f : Floats) (p : Printing f) where
  abbrev pub at : ℕ × Collector → Moment f p
  at m = record { io = smooth; now = m.0; collector = m.1 }

  -- The bytes of the file when the node has stopped.
  abbrev pub csv_of : Option Reporter → Option (List ℕ)
  csv_of none = none
  csv_of (some r) = some r.csv

  -- One node, from NewReporter with WithCSVOutput to Stop.
  unfoldable pub run_once : String → Run → List ℕ → Option (List ℕ)
  run_once path run csv = csv_of (
      stop_reporter f p (λ k. at run.last)
        (report_all f p (map at run.ticks)
          (start_reporter (new_reporter csv (with_csv_output path ∷ [])))))

  unfoldable pub run_all : String → List Run → List ℕ → Option (List ℕ)
  run_all path [] csv = some csv
  run_all path (run ∷ more) csv = elim (run_once path run csv) [
    | none ↦ none
    | some csv' ↦ run_all path more csv'
  ]

  abbrev pub moments : Run → List (Moment f p)
  moments run = map at run.ticks ++ at run.last ∷ []

  -- The rows of all reports of the nodes.
  unfoldable pub all_rows : List Run → List ℕ
  all_rows [] = []
  all_rows (run ∷ more) = rows f p (moments run) ++ all_rows more

  stop_reporter-csv :
      (m : Moment f p) (r : Reporter)
      → r.stopping ≡ false
      → r.loops ≡ 1
      → csv_of (stop_reporter f p (λ k. m) r)
        ≡ some (report_at f p m (record r { stopping = true })).csv
  unfolding stop_reporter last_reports
  stop_reporter-csv m r fresh one = simp (fresh, one)

  rows-last :
      (ms : List (Moment f p)) (m : Moment f p)
      → rows f p (ms ++ m ∷ []) ≡ rows f p ms ++ row_of f p m
  unfolding rows
  rows-last [] m = append-nil (row_of f p m)
  rows-last (k ∷ ms) m =
      ap (λ bytes. row_of f p k ++ bytes) (rows-last ms m)
      ∙ sym (append_assoc (row_of f p k) (rows f p ms) (row_of f p m))

  -- A node that finds an empty file writes the header and its rows, and one that finds another file just
  -- its rows.
  run-csv :
      (ticks : List (ℕ × Collector)) (last : ℕ × Collector) (r : Reporter)
      → str_eq r.csv_path "" ≡ false
      → r.csv_file ≡ unopened
      → r.loops ≡ 1
      → r.stopping ≡ false
      → csv_of (stop_reporter f p (λ k. at last) (report_all f p (map at ticks) r))
        ≡ some (r.csv ++ (heading f p smooth r.csv ++ rows f p (map at ticks ++ at last ∷ [])))
  unfolding rows report_all
  run-csv [] last r named not_yet one fresh =
      let w = report_at-unopened f p (at last) (record r { stopping = true }) named not_yet refl in
      stop_reporter-csv (at last) r fresh one
      ∙ ap some (
          w.grown
          ∙ ap (λ bytes. r.csv ++ (heading f p smooth r.csv ++ bytes))
              (sym (append-nil (row_of f p (at last)))))
  run-csv (k ∷ ks) last r named not_yet one fresh =
      let w = report_all-first f p (at k) (map at ks) r named not_yet refl in
      let reported : Reporter = report_all f p (map at (k ∷ ks)) r in
      let w' =
        report_at-opened f p (at last) (record reported { stopping = true })
          (ap (λ path. str_eq path "") w.path ∙ named) w.now_open in
      let header = heading f p smooth r.csv in
      let row = row_of f p (at k) in
      let middle = rows f p (map at ks) in
      let end = row_of f p (at last) in
      stop_reporter-csv (at last) reported (w.stopping ∙ fresh) (w.loops ∙ one)
      ∙ ap some (
          w'.grown
          ∙ ap (λ csv. csv ++ end) w.grown
          ∙ append_assoc r.csv ((header ++ row) ++ middle) end
          ∙ ap (λ bytes. r.csv ++ bytes)
              (append_assoc (header ++ row) middle end
                ∙ append_assoc header row (middle ++ end)
                ∙ ap (λ bytes. header ++ (row ++ bytes)) (sym (rows-last (map at ks) (at last)))))

  run_once-csv :
      (path : String) (run : Run) (csv : List ℕ)
      → str_eq path "" ≡ false
      → run_once path run csv ≡ some (csv ++ (heading f p smooth csv ++ rows f p (moments run)))
  unfolding run_once new_reporter start_reporter
  run_once-csv path run csv named =
      run-csv run.ticks run.last (start_reporter (new_reporter csv (with_csv_output path ∷ [])))
        named refl refl refl

  abbrev then_run : String → List Run → Option (List ℕ) → Option (List ℕ)
  then_run path more none = none
  then_run path more (some csv) = run_all path more csv

  run_all-step :
      (path : String) (run : Run) (more : List Run) (csv : List ℕ)
      → run_all path (run ∷ more) csv ≡ then_run path more (run_once path run csv)
  unfolding run_all
  run_all-step path run more csv = go (run_once path run csv)
    where
      go :
          (o : Option (List ℕ))
          → elim o [ none ↦ none | some csv' ↦ run_all path more csv' ] ≡ then_run path more o
      go none = refl
      go (some csv') = refl

  -- A file that is not empty gets no header.
  run_all-old :
      (path : String) (runs : List Run) (csv : List ℕ)
      → str_eq path "" ≡ false
      → (length csv == 0) ≡ false
      → run_all path runs csv ≡ some (csv ++ all_rows runs)
  unfolding run_all all_rows
  run_all-old path [] csv named old = ap some (sym (append-nil csv))
  run_all-old path (run ∷ more) csv named old =
      let first : run_once path run csv ≡ some (csv ++ rows f p (moments run)) =
        run_once-csv path run csv named ∙ rw old refl in
      let rest =
        run_all-old path more (csv ++ rows f p (moments run)) named (length-append-old csv _ old) in
      run_all-step path run more csv
      ∙ ap (then_run path more) first
      ∙ rest
      ∙ ap some (append_assoc csv (rows f p (moments run)) (all_rows more))

  -- If the system opens the file of WithCSVOutput, tells its size and takes all that is written, the nodes
  -- that report into a new file one after the other, at their ticks and when they stop, leave one header,
  -- which is not empty, and then a row for each report, in their order.
  pub run_all-csv :
      (path : String) (run : Run) (more : List Run)
      → str_eq path "" ≡ false
      → 0 < length (p.csv_line csv_header)
      → run_all path (run ∷ more) [] ≡ some (p.csv_line csv_header ++ all_rows (run ∷ more))
  unfolding all_rows
  run_all-csv path run more named real =
      let header = p.csv_line csv_header in
      let first : run_once path run [] ≡ some (header ++ rows f p (moments run)) =
        run_once-csv path run [] named in
      let rest =
        run_all-old path more (header ++ rows f p (moments run)) named
          (length-append-old header _ (ground (arith, real))) in
      run_all-step path run more []
      ∙ ap (then_run path more) first
      ∙ rest
      ∙ ap some (append_assoc header (rows f p (moments run)) (all_rows more))
