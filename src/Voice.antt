-- ===== src/Voice.antt =====
-- ron/voice: how Ron listens. Samples are of any type, since this code only moves them.
pub mod Audio
pub mod Vad
