-- ===== src/Tests/Ladder.antt =====
-- ladder.go at concrete inputs.
