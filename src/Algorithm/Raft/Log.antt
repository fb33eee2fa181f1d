-- ===== src/Algorithm/Raft/Log.antt =====
-- The parts of raft.go that read or change the log alone.
use uav.Base.{
  ℕ, ◌-◌, ◌%◌, ◌==◌, ltb, leb, Bool, List, [], ◌∷◌, ◌++◌, none, some, if◌then◌else◌, length,
  get_elem?, take, drop, u32, add32,
}
use uav.Algorithm.Raft.State.{LogEntry, Run, ok, panic}

-- uint32(len(a.log)).
abbrev pub len32 : List LogEntry → ℕ
len32 log = length log % u32

-- a.log[i]
unfoldable pub load : List LogEntry → ℕ → Run LogEntry
load log i = elim (get_elem? log i) [ none ↦ panic | some e ↦ ok e ]

-- a.log[i].Term behind a test that i is in range.
unfoldable pub term_at : List LogEntry → ℕ → ℕ
term_at log i = elim (get_elem? log i) [ none ↦ 0 | some e ↦ e.term ]

-- a.log[i:]
unfoldable pub slice_from : ℕ → List LogEntry → Run (List LogEntry)
slice_from i log = if leb i (length log) then ok (drop i log) else panic

-- lastLogInfo.
unfoldable pub last_log_info : List LogEntry → ℕ × ℕ
unfolding term_at
last_log_info log = if length log == 0 then (0, 0) else (len32 log, term_at log (length log - 1))

-- One round of the loop that appends new entries.
unfoldable pub place : List LogEntry → ℕ → LogEntry → List LogEntry
unfolding term_at
place log idx entry =
    if ltb idx (len32 log)
    then (if term_at log idx == entry.term then log else take idx log ++ entry ∷ [])
    else log ++ entry ∷ []

-- The loop, from the index of the first of the remaining entries.
unfoldable pub append_new : List LogEntry → ℕ → List LogEntry → List LogEntry
append_new log idx [] = log
append_new log idx (entry ∷ entries) = append_new (place log idx entry) (add32 idx 1) entries

-- The consistency check: the log has an entry at PrevLogIndex, of PrevLogTerm.
unfoldable pub is_consistent : List LogEntry → ℕ → ℕ → Bool
unfolding term_at
is_consistent log prev_log_index prev_log_term =
    if ltb 0 prev_log_index
    then (if ltb (len32 log) prev_log_index
        then Bool.false
        else term_at log (prev_log_index - 1) == prev_log_term)
    else Bool.true
