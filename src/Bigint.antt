-- ===== src/Bigint.antt =====
-- bigint
pub mod Digits
pub mod Integer
pub mod Tests
