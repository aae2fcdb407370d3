-- ===== src/Arch/Tests.antt =====
-- The theorems on registers and decoding at concrete words.
