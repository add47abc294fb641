-- ===== src/Rev2.antt =====
-- The firmware of the second revision, Archive/Rev2/firmware/src.
pub mod Network
pub mod Cli
pub mod Start
pub mod Loop
pub mod Ascii
pub mod Snesio
