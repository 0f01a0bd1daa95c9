-- ===== src/Examples.antt =====
-- The theorems at concrete inputs, and runs of the model.
mod X86
mod Arm64
mod PcTable
mod Linker
mod Packages
mod ProcMaps
mod Users
mod Reach
mod FindFunc
mod Functions
mod AddSymbol
mod Load
mod Sections
mod SymbolMap
