-- ===== src/Scan/Fuel.antt =====
-- The loops of a scan end by themselves: more rounds than they are given change nothing.
