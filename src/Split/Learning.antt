-- ===== src/Split/Learning.antt =====
-- What the times of a group change in the learned costs.
