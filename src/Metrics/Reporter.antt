-- ===== src/Metrics/Reporter.antt =====
-- node/metrics/reporter.go, Reporter: its log, its CSV file and its loops. An output is one step.
pub mod Files
pub mod Runs
pub mod Summary
mod Tests
use Prim.Native.String.{◌++◌ as ◌<>◌}
use uav.Base.{
  ℕ, zero, suc, ◌+◌, ◌-◌, ◌==◌, ◌&&◌, ltb, Bool, true, false, Option, none, some, String, List, [],
  ◌∷◌, ◌++◌, if◌then◌else◌, length, str_eq,
}
use uav.Metrics.Collector.{Collector}
use uav.Metrics.Snapshot.{Floats, MetricsSnapshot, snapshot}
use uav.Metrics.Snapshot.Export.{
  Printing, text, csv_header, csv_row, summary, Exported, export_json,
}

-- csvFile: nil, open, or closed by Stop.
pub data CsvFile : Type 0 where
  unopened : CsvFile
  opened : CsvFile
  closed : CsvFile

-- What the operating system answers in the course of an output: the error of OpenFile, whether Stat
-- returns a size, and what the file takes of the header and of the row.
pub record Io : Type 0 where
  pub open_error : Option String
  pub stats : Bool
  pub header_taken : List ℕ → List ℕ
  pub row_taken : List ℕ → List ℕ

-- Reporter, with the lines that it has logged, the bytes of the file at csvPath, how many loops run, and
-- whether stopCh is closed.
pub record Reporter : Type 0 where
  pub csv_path : String
  pub csv_file : CsvFile
  pub csv : List ℕ
  pub logged : List String
  pub loops : ℕ
  pub stopping : Bool

-- The options WithCSVOutput and WithLogger.
pub data ReporterOption : Type 0 where
  with_csv_output : String → ReporterOption
  with_logger : List String → ReporterOption

abbrev pub configured : ReporterOption → Reporter → Reporter
configured (with_csv_output path) r = record r { csv_path = path }
configured (with_logger lines) r = record r { logged = lines }

abbrev pub configured_all : List ReporterOption → Reporter → Reporter
configured_all [] r = r
configured_all (opt ∷ opts) r = configured_all opts (configured opt r)

-- NewReporter, where the file at csvPath has these bytes.
unfoldable pub new_reporter : List ℕ → List ReporterOption → Reporter
new_reporter csv opts = configured_all opts (record {
  csv_path = "";
  csv_file = unopened;
  csv = csv;
  logged = [];
  loops = 0;
  stopping = false;
})

-- Start.
unfoldable pub start_reporter : Reporter → Reporter
start_reporter r = record r { loops = r.loops + 1 }

module _ (f : Floats) (p : Printing f) where
  -- WriteCSVRow on the open file.
  abbrev pub write_row : Io → MetricsSnapshot f → Reporter → Reporter
  write_row io s r = record r { csv = r.csv ++ io.row_taken (p.csv_line (csv_row f p s)) }

  -- The header, if the file is new.
  abbrev pub write_header : Io → Reporter → Reporter
  write_header io r =
      if io.stats && (length r.csv == 0)
      then record r { csv = r.csv ++ io.header_taken (p.csv_line csv_header) }
      else r

  -- appendCSV. A write to a closed file fails.
  unfoldable pub append_csv : Io → MetricsSnapshot f → Reporter → Reporter
  append_csv io s r = elim r.csv_file [
    | unopened ↦ elim io.open_error [
      | some err ↦ record r { logged = r.logged ++ ("csv open error: " <> err) ∷ [] }
      | none ↦ write_row io s (write_header io (record r { csv_file = opened }))
    ]
    | opened ↦ write_row io s r
    | closed ↦ r
  ]

  -- output.
  unfoldable pub output : Io → MetricsSnapshot f → Reporter → Reporter
  unfolding append_csv
  output io s r =
      let r' = record r { logged = r.logged ++ summary f p s ∷ [] } in
      if str_eq r.csv_path "" then r' else append_csv io s r'

  -- Flush, and what a loop does at a tick.
  unfoldable pub flush : Io → ℕ → Collector → Reporter → Reporter
  unfolding output snapshot
  flush io now c r = output io (snapshot f now c) r

  -- FlushToFile.
  unfoldable pub flush_to_file : Bool → ℕ → Collector → Exported f p
  unfolding snapshot export_json
  flush_to_file takes now c = export_json f p takes (snapshot f now c)

  -- What an output meets: the answers of the system, the clock and the collector.
  pub record Moment : Type 0 where
    pub io : Io
    pub now : ℕ
    pub collector : Collector

  -- The body of loop at a tick, and Flush.
  abbrev pub report_at : Moment → Reporter → Reporter
  report_at m r = flush m.io m.now m.collector r

  -- loop, over its ticks.
  unfoldable pub report_all : List Moment → Reporter → Reporter
  report_all [] r = r
  report_all (m ∷ ms) r = report_all ms (report_at m r)

  -- The final outputs of this many loops.
  unfoldable pub last_reports : ℕ → (ℕ → Moment) → Reporter → Reporter
  last_reports zero finals r = r
  last_reports (suc k) finals r = last_reports k finals (report_at (finals k) r)

  abbrev pub close_file : CsvFile → CsvFile
  close_file unopened = unopened
  close_file opened = closed
  close_file closed = closed

  -- Stop, or none where it closes stopCh a second time and panics. It waits for each loop, which makes a
  -- final output.
  unfoldable pub stop_reporter : (ℕ → Moment) → Reporter → Option Reporter
  unfolding last_reports
  stop_reporter finals r =
      let done = last_reports r.loops finals (record r { stopping = true }) in
      if r.stopping
      then none
      else some (record done { csv_file = close_file done.csv_file; loops = 0 })
