-- ===== src/Text.antt =====
-- Texts as the program handles them: Python `str` as the native `String` of code points.
pub mod Regex
