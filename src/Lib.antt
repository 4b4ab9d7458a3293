-- ===== src/Lib.antt =====
-- DoubleJIT-VM, a virtual machine for RISC-V programs: what its front end does with a program, and
-- theorems on it. Paths are those of the repository, without the leading directory of sources.
--
-- The program. `src/frontend/elf.rs` reads an ELF file; `src/frontend/binary.rs` checks its header
-- and the ranges of its segments, sets the width of the machine for the decoder, and has a function
-- that lays bytes over pages (`src/frontend/page.rs`); `src/frontend/instruction.rs` decodes bytes
-- into instructions, 32-bit and compressed ones; `src/frontend/cache.rs` keeps decoded instructions
-- by address; `src/frontend/v.rs` keeps the configuration of the vector unit. The
-- modules behind the front end (`src/codegen`, `src/middleend`, `src/runtime`, `src/tools`,
-- `src/wasm`) are empty.
--
-- Conventions. A `u32`, and an `i32` by its bit pattern, is a number below 2 ^ 32; shifts to the left
-- write their loss of bits out (`Word`). A call that may panic returns an `Outcome`, with the panic
-- named (`Prelude.Outcome`). The statics `BIT_LENGTH` and `IS_E` of `src/frontend/mod.rs` are the record
-- `Config`, an argument of the decoder; no function of the decoder writes them. Slices and buffers
-- are lists of bytes. The loop of the instruction iterator has no end of its own: it is cut off after a
-- number of turns, and its theorems hold for every number; the counter of that loop overflows, by a
-- panic or around to 0 as an argument of the model says. The loops of the ELF reader and of the
-- loader are cut off after one call of `next` more than there are headers, which is enough. Sums of
-- the ELF reader and of the loader are those of a build that checks for overflow, and `usize` has 64
-- bits.
--
-- The files. `Prelude` has the shared names, Boolean tests, lists measured by native numbers and the
-- laws of slices; `Bits` relates masks and `|` to remainders and sums.
--   * `Field` and `Field.Compressed`: `slice`, `slice_back` and every reader of a field or an immediate
--     of `src/frontend/instruction.rs`. `Field.Laws` and `Field.Compressed.Laws` give each as a sum of
--     shifted fields.
--   * `Instr` and its children: the instruction enums with their variants in lower case, the operand
--     types, and the conversions of `Imm32`.
--   * `Decode.Config`: the macros `rv32!`, `rv64!` and their kin, which wrap an instruction.
--     `Decode.Format`: the macros `i!`, `b!`, `r!` and so on, which read the operands, in their order.
--     `Decode.Base`, `OpImm`, `Op`, `System`, `Float`: the nested matches of `Instruction::parse`, one
--     function a match, the arms in the order of the source. `Decode.Parse`: `Instruction::parse` from
--     the bytes on. `Decode.Orderly` follows every match to its end; `Decode.Typed` says what the operand
--     types mean, which Rust does not check, and follows every match with that; `Decode.Unknown` is on
--     the words without an arm, `Decode.Behind` on the bytes behind a compressed instruction.
--   * `Compressed` and `Compressed.Quadrants`: `try_from_compressed` and its arms. The float arms that
--     the source has commented out, and answers with `None`, are `none` here.
--   * `Isa`: the instruction formats of the RISC-V manuals, written from the manuals and not from the
--     code: a word as the sum of its fields, the codes of each instruction, and for compressed
--     instructions the operands allowed and the instruction meant. `RoundTrip` proves that the decoder
--     reads these words back; `Deviations` states what it returns where it does not.
--   * `Page`: addresses, pages and errors; `Page.Map`: `map_page` of `src/frontend/binary.rs`, each case
--     of its match a function; `Page.View`: the abstract page, a list of bytes, and one write on it.
--   * `Vector`: `V::new` and `V::set_vl`. `vlmul` is an `f64` in the source that holds a power of two from
--     1/16 to 8; here it counts sixteenths. The products and quotients of the source lie below 2 ^ 15
--     and are exact. `Vector.Meaning`: what the vector extension says of a type.
--     `Vector.Getters`: the getters; `Vector.Reach`: the states that a program can bring the unit to.
--   * `Iter`: `InstructionIter::next` of `src/frontend/instruction.rs`, its loop over the pages in turns.
--   * `Cache`: `CodeCache`; its `HashMap` is a list of pairs.
--   * `Elf`: the reader of src/frontend/elf.rs. `Elf.Kinds`, `Header`, `Section`, `Program` and `Content`:
--     the structures, enums and getters; a structure over `P` is one record for all widths, with its
--     fields as numbers. `Elf.Zero`: the crate `zero`, which views bytes as structures, as a record of
--     its readers that every function and theorem takes; a reader may panic. `Elf.File`: `ElfFile::new`,
--     the headers by number, names. `Elf.Iter`: the iterators, and the `for` loop over one. `Elf.Utf8`:
--     `std::str::from_utf8`. `Elf.Interpreter`: `parse_interpreter`. `Elf.Print`: the `Display` impls.
--     `Elf.Data`: `raw_data`, `get_data`.
--     `Elf.Opened`, `Elf.Views`, `Elf.Iter.Steps`, `Elf.Iter.Seen`, `Elf.Iter.Visit`: their laws.
--   * `Loader`: `Binary::parse` of src/frontend/binary.rs. It starts at `Loader.parse` with the static
--     `BIT_LENGTH` as it was, and gives it back with the result; every step of the source is a function,
--     from `opened` to `walk_sections`. `Loader.Inversion`, `Segments`, `Laws`, `Total`, `Width`: its laws.
--     `Loader.Decoding`: the decoder with the static that the loader has left.
--   * `Tests`: the unit tests of `src/frontend/instruction.rs` as runs of the model, and each theorem
--     that has hypotheses at a concrete input.
--
-- Not modelled. How the standard library writes a number or the `Debug` of an enum, and `dbg!`; the
-- arms of `SectionHeader::get_data` behind its first pattern, which takes every type; the vector
-- decoder, which is commented out; the runner, the fuzz targets and the test binaries. `map_page`
-- always answers `Ok(())`, so the model returns the page alone. The parse behind the loop of
-- `InstructionIter::next` is left out: the loop has no `break`, so no run comes to it. In `Isa`, the
-- 32-bit ZEXT.H, which the decoder has no arm for and reads as DIV, the float loads and stores, which
-- it has no arm for either, and RV128 have no layout; of the arms for RV128 `Decode.Orderly`,
-- `Decode.Typed` and `Compressed.Total` alone speak.
pub mod Prelude
pub mod Bits
pub mod Word
pub mod Field
pub mod Instr
pub mod Decode
pub mod Compressed
pub mod Isa
pub mod RoundTrip
pub mod Deviations
pub mod Page
pub mod Vector
pub mod Cache
pub mod Iter
pub mod Elf
pub mod Loader
mod Tests
