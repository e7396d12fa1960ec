-- ===== src/Review.antt =====
-- epiphany_executor/review.py: state deltas, back-updates, re-opening and the sentinel.
pub mod Delta
pub mod BackUpdate
pub mod Sentinel
pub mod Rounds
