-- ===== src/Scheduler/Least.antt =====
-- The greedy strategy picks the least of the candidates.
