-- ===== src/Packed.antt =====
-- Packed structures and strings (pe_bliss2/include/pe_bliss2, pe_bliss2/src): numbers and text in a
-- buffer of bytes.
pub mod Struct
pub mod CString
