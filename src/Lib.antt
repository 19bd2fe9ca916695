-- ===== src/Lib.antt =====
-- winlift: the conversion of 32-bit Windows PE programs into Linux ELF programs.
--
-- The program reads a PE file into an image (src/pe_reader.c, which calls src/pe_imports.c for the
-- imports and src/pe_relocs.c for the relocations and the TLS callbacks), lays the image out as ELF
-- segments (src/layout.c), binds its imports to a shim that stands for the Windows libraries and adds
-- the shim's segments (src/stub_patch.c, with the table of imports of src/shim_abi.c), and writes the
-- ELF file (src/elf_writer.c). src/main.c runs these stages in turn. The stages share the image: its
-- file bytes `raw` are what every pointer of the parser and every segment of the layout points into,
-- so what the binding writes there is what the writer finds.
--
-- Paths below are those of the repository. Which module is about which code:
--   Prelude      shared names: Boolean tests, lists over the native numbers, and outcomes
--   Bytes        buffers: the dereference of a pointer into one, little-endian fields, slices
--   Diagnostics  include/diagnostics.h, src/diagnostics.c: the reasons for a rejection
--   Host         the C library's malloc and realloc, as a parameter
--   PeFormat     include/pe_format.h: the packed structures and constants of a PE file
--   PeImage      include/pe_image.h, and pe_rva_to_ptr and pe_image_free of src/pe_reader.c
--   PeImports    src/pe_imports.c
--   PeRelocs     pe_parse_relocs_dir of src/pe_relocs.c
--   PeTls        pe_parse_tls_dir of src/pe_relocs.c
--   PeReader     the rest of src/pe_reader.c
--   ShimAbi      src/shim_abi.c
--   Dump         src/pe_dump.c
--   Elf32        include/elf32_format.h: the packed structures of an ELF file
--   ElfSpec      include/elf_writer.h, and the permissions of include/elf32_format.h
--   Layout       src/layout.c
--   ElfWriter    src/elf_writer.c
--   ShimBlob     shim_find_symbol of src/stub_patch.c
--   StubPatch    the rest of src/stub_patch.c
--   Convert      src/main.c
--   Runtime      runtime/, the shim that runs in the converted program:
--     Memory     its loads and stores
--     Heap, Startup, Format   runtime/shim_startup.c
--     Output     the loop around write(2), of which its files have four copies
--     Kernel32, Msvcrt        runtime/shim_kernel32.c, runtime/shim_msvcrt.c
--     User32     runtime/shim_user32.c, runtime/shim_comctl32.c
--   Samples      a small PE file, a small shim and a small process, the tests, and the theorems at them
-- A module's children hold its proofs; a function keeps its name, but for the prefixes `pe_` and
-- `shim_`. The Windows functions of runtime/ have theirs in small letters (write_file for WriteFile).
--
-- Conventions. An operation gives an `Outcome`: a value, a rejection (the source's `return false` with
-- an error), `fault` where the source's behaviour is undefined (a read or a write outside a buffer, a
-- signed overflow, a NULL that is read through), or `stuck` where a loop's fuel is used up. `Meets S P`
-- says that a value has the property P, that there is no fault, and that a loop runs dry only if S
-- holds; `Returns` is the case where it never does, `Ensures` the one where it may. A pointer into the
-- file is its offset in `raw`. Sums of 32 bits have their wrap-around written out; a sum of 64 bits
-- cannot wrap with operands of 32 bits and has none. A C string is its bytes up to the NUL.
--
-- In Runtime a rejection is the end of the process. The state `Machine` is its memory with the shim's
-- variables, and what it has asked of the kernel so far; a pointer is an address in that memory. A sum
-- of a pointer and a size that leaves the address space is a fault, and so is an access outside the
-- program's pages and the heap.
--
-- Fuel. The walks over the import directory, the thunks and the relocation blocks end where the file
-- says so, and are given fuel. Every step of the import walks maps an address further on, so where no
-- mapped address lies at or behind a limit below 2^32, fuel above a quarter of the limit is enough.
-- The walk over relocation blocks has no such bound in the source, since its offset of 32 bits can
-- wrap. The second walk ends where the first did. The padding of the output is given a round for each
-- byte, and each round writes at least one, as does each round of the shim's loops around write(2). The
-- shim's exit runs as long as functions are registered, which functions that run can do, and the
-- strings of memory end at a NUL; both are given fuel, and for the strings fuel above 2^32 is enough.
-- All other loops go through a list or count down a number.
--
-- Parameters. `Alloc` says of each memory request whether it is met. `InputFile` and `OutputFile` say
-- what fopen, fseek, ftell, fread, fwrite and fclose do; the input has less than 2^31 bytes where a
-- theorem says so, since the source counts half-words of it with an int. The shim's ELF file is made
-- by the build (tools/gen_shim_blob.py): it is the parameter `blob`, and `IsShim` says what the build
-- promises of it, which the sample shim of Samples/Shim fulfils. `Kernel` answers the shim's system
-- calls; `IsBrk` and `IsWrite` are what the documentation of brk(2) and write(2) says, and `IsSteady`
-- is a kernel whose writes always make progress, as those of Samples/Process do. `Program` is what
-- the converted program's own code does when the shim calls it.
--
-- Not modelled: the text of messages, which the C library formats, as it does the lines of the dump,
-- where a line is its format with its arguments; the mode that main gives the output file; of
-- runtime/, the assembly of shim_entry.S and shim_syscall.h; tools/ and tests/.
pub mod Prelude
pub mod Bytes
pub mod Diagnostics
pub mod Host
pub mod PeFormat
pub mod PeImage
pub mod PeImports
pub mod PeRelocs
pub mod PeTls
pub mod PeReader
pub mod ShimAbi
pub mod Elf32
pub mod Dump
pub mod ElfSpec
pub mod Layout
pub mod ElfWriter
pub mod ShimBlob
pub mod StubPatch
pub mod Convert
pub mod Runtime
mod Samples
