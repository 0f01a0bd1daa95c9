-- ===== src/Linker.antt =====
-- ld.go: `addSymbol`, which puts a symbol into the section of its kind.
pub mod State
pub mod Fixup
pub mod Import
pub mod AddSymbol
pub mod AddSymbols
pub mod Growth
pub mod Users
pub mod Reserve
pub mod Room
pub mod Layout
pub mod Place
pub mod Sections
