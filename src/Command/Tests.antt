-- ===== src/Command/Tests.antt =====
-- The console at concrete keys.
