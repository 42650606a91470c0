-- ===== src/Witnesses.antt =====
-- The theorems with hypotheses, applied at concrete inputs where the hypotheses hold.
mod Parts
mod Session
mod Runs
mod Served
mod Kept
