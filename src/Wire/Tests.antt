-- ===== src/Wire/Tests.antt =====
-- Instances of the theorems on big-endian integers.
