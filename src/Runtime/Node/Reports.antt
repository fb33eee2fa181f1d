-- ===== src/Runtime/Node/Reports.antt =====
-- node/metrics/snapshot.go on the collector of a node: what its drop rate is a fraction of.
use uav.Base.{ℕ, ◌+◌, List}
use uav.Message.{Message}
use uav.Metrics.Collector.Totals.{Call, total, duplicates, expired}
use uav.Runtime.Node.{Node}

-- The messages that the router of a node has dropped.
abbrev pub drops : List Call → ℕ
drops calls = total duplicates calls + total expired calls
