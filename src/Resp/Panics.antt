-- ===== src/Resp/Panics.antt =====
-- Lengths below -1: the decoder checks for -1 alone.
