-- ===== src/Bindings/Probe/Counted.antt =====
-- The counts of the command: each element of a database counts once in both tables.
use libhw.Base.{sum_values, ℕ, ◌≡◌, ◌≤◌}
use libhw.Bindings.Library.{Library}
use libhw.Bindings.Probe.{DbReport, ProbeCounts}

-- The tables add up to one number, and no more reads without evidence are counted than elements.
abbrev IsCounted : ℕ → ProbeCounts → Type 0
IsCounted n t = (sum_values t.presence ≡ n) × (sum_values t.reads ≡ n) × (t.read_ok_unknown ≤ n)

abbrev pub IsComplete : DbReport → Type 0
IsComplete r = IsCounted r.elements r.tally
