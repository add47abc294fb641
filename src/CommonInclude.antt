-- ===== src/CommonInclude.antt =====
-- The library of Tools/CommonInclude: addresses and numbers.
pub mod Ip
pub mod Number
