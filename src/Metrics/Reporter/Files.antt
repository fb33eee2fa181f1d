-- ===== src/Metrics/Reporter/Files.antt =====
-- What the CSV file of a reporter has in it.
use uav.Base.{
  ℕ, ◌≡◌, refl, sym, ap, ◌∙◌, ◌==◌, ◌&&◌, false, none, some, String, List, [], ◌∷◌, ◌++◌,
  append-nil, append_assoc, if◌then◌else◌, length, str_eq, inl, inr, Bool-cases, Option-cases,
}
use uav.Metrics.Snapshot.{Floats, snapshot}
use uav.Metrics.Snapshot.Export.{Printing, csv_header, csv_row}
use uav.Metrics.Reporter.{
  unopened, opened, Io, Reporter, append_csv, output, flush, Moment, report_at, report_all,
}

-- From r to r' these bytes are appended to the CSV file, which is open then.
pub record Written (r r' : Reporter) (bytes : List ℕ) : Type 0 where
  pub grown : r'.csv ≡ r.csv ++ bytes
  pub now_open : r'.csv_file ≡ opened
  pub path : r'.csv_path ≡ r.csv_path
  pub loops : r'.loops ≡ r.loops
  pub stopping : r'.stopping ≡ r.stopping

Written-trans :
    {r r' r'' : Reporter} {bytes more : List ℕ}
    → Written r r' bytes
    → Written r' r'' more
    → Written r r'' (bytes ++ more)
Written-trans {r} {bytes} {more} a b = record {
  grown = b.grown ∙ ap (λ csv. csv ++ more) a.grown ∙ append_assoc r.csv bytes more;
  now_open = b.now_open;
  path = b.path ∙ a.path;
  loops = b.loops ∙ a.loops;
  stopping = b.stopping ∙ a.stopping;
}

module _ (f : Floats) (p : Printing f) where
  -- What the file takes of the row of one output, and of the rows of several ones.
  abbrev pub row_of : Moment f p → List ℕ
  row_of m = m.io.row_taken (p.csv_line (csv_row f p (snapshot f m.now m.collector)))

  unfoldable pub rows : List (Moment f p) → List ℕ
  rows [] = []
  rows (m ∷ ms) = row_of m ++ rows ms

  -- What it takes of a header, when it has these bytes already.
  abbrev pub heading : Io → List ℕ → List ℕ
  heading io csv =
      if io.stats && (length csv == 0) then io.header_taken (p.csv_line csv_header) else []

  -- What the outputs add to a file with these bytes: nothing until the file opens, and from then on a
  -- header, if the file was empty, and the rows.
  unfoldable pub reported : List ℕ → List (Moment f p) → List ℕ
  reported csv [] = []
  reported csv (m ∷ ms) =
      let rest = reported csv ms in
      elim m.io.open_error [ none ↦ heading m.io csv ++ (row_of m ++ rows ms) | some err ↦ rest ]

  reported-opens :
      (csv : List ℕ) (m : Moment f p) (ms : List (Moment f p))
      → m.io.open_error ≡ none
      → reported csv (m ∷ ms) ≡ heading m.io csv ++ (row_of m ++ rows ms)
  unfolding reported
  reported-opens csv m ms opens = simp (opens)

  reported-fails :
      (csv : List ℕ) (m : Moment f p) (ms : List (Moment f p)) (err : String)
      → m.io.open_error ≡ some err
      → reported csv (m ∷ ms) ≡ reported csv ms
  unfolding reported
  reported-fails csv m ms err fails = simp (fails)

  pub report_at-opened :
      (m : Moment f p) (r : Reporter)
      → str_eq r.csv_path "" ≡ false
      → r.csv_file ≡ opened
      → Written r (report_at f p m r) (row_of m)
  unfolding flush output append_csv
  report_at-opened m r named now_open =
      rw (named, now_open)
        (record { grown = refl; now_open = now_open; path = refl; loops = refl; stopping = refl })

  pub report_at-unopened :
      (m : Moment f p) (r : Reporter)
      → str_eq r.csv_path "" ≡ false
      → r.csv_file ≡ unopened
      → m.io.open_error ≡ none
      → Written r (report_at f p m r) (heading m.io r.csv ++ row_of m)
  unfolding flush output append_csv
  report_at-unopened m r named not_yet opens =
      elim (Bool-cases (m.io.stats && (length r.csv == 0))) [
        | inl new ↦
            rw (named, not_yet, opens, new)
              (record {
                grown = append_assoc r.csv _ _;
                now_open = refl;
                path = refl;
                loops = refl;
                stopping = refl;
              })
        | inr old ↦
            rw (named, not_yet, opens, old)
              (record { grown = refl; now_open = refl; path = refl; loops = refl; stopping = refl })
      ]

  report_at-failed :
      (m : Moment f p) (r : Reporter) (err : String)
      → str_eq r.csv_path "" ≡ false
      → r.csv_file ≡ unopened
      → m.io.open_error ≡ some err
      → ((report_at f p m r).csv ≡ r.csv)
        × ((report_at f p m r).csv_file ≡ unopened)
        × ((report_at f p m r).csv_path ≡ r.csv_path)
  unfolding flush output append_csv
  report_at-failed m r err named not_yet fails = rw (named, not_yet, fails) (refl, refl, refl)

  pub report_all-opened :
      (ms : List (Moment f p)) (r : Reporter)
      → str_eq r.csv_path "" ≡ false
      → r.csv_file ≡ opened
      → Written r (report_all f p ms r) (rows ms)
  unfolding rows report_all
  report_all-opened [] r named now_open = record {
    grown = sym (append-nil r.csv);
    now_open = now_open;
    path = refl;
    loops = refl;
    stopping = refl;
  }
  report_all-opened (m ∷ ms) r named now_open =
      let w = report_at-opened m r named now_open in
      Written-trans w (
        report_all-opened ms (report_at f p m r) (ap (λ path. str_eq path "") w.path ∙ named)
          w.now_open)

  -- The first output opens the file.
  pub report_all-first :
      (m : Moment f p) (ms : List (Moment f p)) (r : Reporter)
      → str_eq r.csv_path "" ≡ false
      → r.csv_file ≡ unopened
      → m.io.open_error ≡ none
      → Written r (report_all f p (m ∷ ms) r) ((heading m.io r.csv ++ row_of m) ++ rows ms)
  unfolding report_all
  report_all-first m ms r named not_yet opens =
      let w = report_at-unopened m r named not_yet opens in
      Written-trans w (
        report_all-opened ms (report_at f p m r) (ap (λ path. str_eq path "") w.path ∙ named)
          w.now_open)

  -- The outputs of a reporter that has not opened its CSV file yet add to the file a header, if they find
  -- it empty, and one row each, from the first one on that can open it.
  pub report_all-csv :
      (ms : List (Moment f p)) (r : Reporter)
      → str_eq r.csv_path "" ≡ false
      → r.csv_file ≡ unopened
      → (report_all f p ms r).csv ≡ r.csv ++ reported r.csv ms
  unfolding reported report_all
  report_all-csv [] r named not_yet = sym (append-nil r.csv)
  report_all-csv (m ∷ ms) r named not_yet = elim (Option-cases m.io.open_error) [
    | inl opens ↦
        (report_all-first m ms r named not_yet opens).grown
        ∙ ap (λ csv. r.csv ++ csv)
            (append_assoc (heading m.io r.csv) (row_of m) (rows ms)
              ∙ sym (reported-opens r.csv m ms opens))
    | inr (err, fails) ↦
        let (same_csv, still, same) = report_at-failed m r err named not_yet fails in
        report_all-csv ms (report_at f p m r) (ap (λ path. str_eq path "") same ∙ named) still
        ∙ ap (λ csv. csv ++ reported csv ms) same_csv
        ∙ ap (λ csv. r.csv ++ csv) (sym (reported-fails r.csv m ms err fails))
  ]
