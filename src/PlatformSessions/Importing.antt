-- ===== src/PlatformSessions/Importing.antt =====
-- An import can be read back, and touches nothing else.
