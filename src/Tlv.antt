-- ===== src/Tlv.antt =====
-- The TLV codec of ndn/tlv: shared result type, and the modules of the package.
pub mod Errors
pub mod VarNum
pub mod Block
pub mod NniBlock
pub mod Subelements
mod Tests
