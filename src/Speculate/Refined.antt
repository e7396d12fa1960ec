-- ===== src/Speculate/Refined.antt =====
-- What `speculate_antichain` and `refine_cohort` of epiphany_executor/speculate.py leave in a cohort.
use epiphany_executor.Contract.{Contract}
