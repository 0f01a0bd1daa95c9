-- ===== src/Lib.antt =====
-- A model of goloader, which links Go object files and loads them into a running program.
--
-- The parts of the program, and the files of this library (paths from the repository's root):
--   * relocate.go, asm_bytes.go: the relocations. `Reloc` has the buffers that they write,
--     `Reloc/AsmBytes` and `Reloc/MaxExtra` the code templates and the sizes reserved for them,
--     `Reloc/X86` and `Reloc/X86/Pcrel` relocateCALL, relocateGOTPCREL and relocatePCREL,
--     `Reloc/Arm64` relocateADRP and relocateCALLARM, and `Reloc/Dispatch` the loop over the symbols
--     that resolves an address for each relocation and applies it.
--   * ld.go, addSymbol, addSymbols and readFuncData, with ispreprocesssymbol, preprocesssymbol and
--     expandGoroot of utils.go: `Linker`. `Linker/Reserve`, `Linker/Layout` and `Linker/Room` have the
--     bytes reserved behind a function, `Linker/Place` and `Linker/Sections` the section of each
--     symbol, `Linker/Import` the names of import paths, `Linker/Fixup` the relocations against names
--     outside the object files, `Linker/Users` UnresolvedExternalSymbolUsers, `Linker/AddSymbol` the recursion over relocations and types, and
--     `Linker/AddSymbols` the loop over the symbols, the table of files and the shift of the data.
--   * func.1.20.go, functab.1.18.go, inlinetree.go, deferreturn.go, obj/inlinedcall.1.20.go, and
--     addFuncTab and the tables of buildModule in ld.go: `Functions`.
--   * ld.go, the find-function table in buildModule, with the constants of module.go: `FindFunc`.
--   * ld.go, Autolib, recurseAutolibs and UnresolvedPackageReferences: `Packages`.
--   * mmap/manager.go: the search for a free range of addresses behind the first module, in `Mmap`;
--     mmap/manager_unix.go, the reader of /proc/self/maps, in `Mmap/ProcMaps`.
--   * ld.go, patchPCValuesForReloc, pcValue and readPCData: the pc-value tables, in `PcTable`.
--   * ld.go, type segment, obj/readobj.go, const.go: the data that these parts share, in `Segment`
--     and `Names`.
--   * ld.go, addSymbolMap: the address of each symbol and of its duplicate in the host, in
--     `SymbolMap`; the relocations above choose between the two.
--   * readobj.go, collectReachableSymbols: the symbols that a package needs, in `Reach`.
--   * ld.go, Load and Unload, with addModule and removeModule of module.go and removeitabs of
--     iface.1.10.go: in `Load`; `Load/Module` has the ranges of the module that buildModule fills in.
--     The stages between the mappings and the running module, and the system that maps memory, are
--     parameters there; one of the stages is the relocation above.
--
-- How the model corresponds to the code:
--   * An `int` that is a position or a size is a natural number. Addresses, addends and
--     differences are 64-bit patterns with the wrap-around written out (`Shared/Word`), so that a
--     negative difference is what the processor computes with. The host has 64 bits.
--   * A byte slice is a list of natural numbers; a store returns the new list, or `panic` where Go
--     panics at the bounds (`Shared/Bytes`). `segment.codeByte` and `segment.dataByte` are two
--     buffers; for a symbol of the text `relocByte` is the first of them, and the model writes it
--     through either name.
--   * A function that returns an error returns `Outcome`: ok, one of the errors, or a panic.
--   * A Go map is an association list. The loop over `linker.symMap` runs in the order of a list,
--     which stands for the order that the run happens to take.
--   * `Reloc/X86/Machine`, `Reloc/Arm64/Machine` and parts of `Reloc/Arm64/Encoding` describe what a
--     processor does at the words that the loader writes. They do not come from the repository: they
--     are what the theorems compare it with. In the same way `PcTable/Points` says what a table means.
--   * The varints of encoding/binary and runtime.step are modelled as the language's library
--     documents them, with the 32 bits that runtime.step keeps.
--
-- Fuel: `pc_value` and `read_pcdata` take the length of the table, and each round reads two bytes at
-- least, so that it never runs out. The varint writer takes the ten bytes of 64 bits.
-- The rounds of the loop in AcquireMapping are counted by fuel, which the theorems leave open.
-- The search for reachable symbols takes more fuel than there are names that it can reach, addSymbol
-- more than symbols of the object files are missing in the map, and Autolib more than the length of
-- the longest chain of imports. `Shared/Run` is the monad of such a recursion.
--
-- Further conventions:
--   * A character of a name stands for a byte. The files of `goroot`, the object of the stack maps and
--     the symbols of the host are parameters.
--   * A relocation holds the name of its symbol and the offset at the time that it was read, where the
--     code shares one object among all relocations of the name.
--
-- Not modelled: the reader of object files (obj/readobj*.go, obj/pe_relocs.go), which calls packages
-- of the Go tool chain; readobj.go but for collectReachableSymbols; in ld.go
-- UnresolvedExternalSymbols, the exports and the deduplication of types; the interfaces, types and conversions, the
-- stack objects and the garbage-collection data, which work on the memory of the running program; the
-- initialisers; and the readers of the list of mappings on other systems. The system calls and the JIT
-- compiler around the linker are input and output, and reflectlite is a copy of a package of Go. Debug
-- output and the text of error messages do not appear, except where building a message can panic.
-- A 32-bit host is not modelled.
pub mod Shared
pub mod Segment
pub mod Names
pub mod Reloc
pub mod Linker
pub mod Functions
pub mod FindFunc
pub mod Mmap
pub mod Packages
pub mod Reach
pub mod SymbolMap
pub mod Load
pub mod PcTable
pub mod Examples
