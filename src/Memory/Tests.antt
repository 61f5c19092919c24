-- ===== src/Memory/Tests.antt =====
-- A region of three bytes filled.
