-- ===== src/Util.antt =====
-- database/src/util.rs: the text functions, in `Texts` and `ReturnData`.
pub mod Texts
pub mod ReturnData
