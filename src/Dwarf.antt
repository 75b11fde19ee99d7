-- ===== src/Dwarf.antt =====
-- The DWARF code of src/: expressions, registers and the instructions of call frame information.
pub mod Op
pub mod Expr
pub mod Register
pub mod Cfa
pub mod Numbers
