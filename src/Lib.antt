-- ===== src/Lib.antt =====
-- Katana, a tool for hot-patching ELF programs and for editing their DWARF call frame information,
-- written in C. This library models the parts of it that work on bytes and tables, from the source,
-- and proves what they promise each other.
--
-- The parts and their files, with the paths from the repository's root:
-- - Leb: the LEB128 numbers of src/leb.c. `encode_as_leb128` and `decode_leb128` are
--   encodeAsLEB128 and decodeLEB128, with the loops and the bit operations of the source; Leb/Words
--   has the conversions of ints and words (uintToLEB128 to leb128ToSWord) and `sextend` of
--   src/util/util.c. The abstract view is the number that bytes (`le_value`) and septets
--   (`leb_value`) stand for, in Leb/Value.
-- - Util: the containers of src/util. Util/GrowingBuffer is growingBuffer.c, Util/LinkedList is list.c,
--   of which the singly linked lists are modelled. Util/Map is map.c, the hash table, whose key
--   comparison and hash are parameters: its nodes are one list in the order of their next pointers,
--   and each bucket holds the address of its first node. Util/Map/Chain says when that list is well
--   formed and gives it the abstract view of an association list (`assoc`), which Lookup and Insert
--   refine and WellFormed and Overwrite put together. Util/Hash is hash.c, and Util/Dictionary is
--   dictionary.c, the hash table with strings for keys and hash1, with its copy in
--   Util/Dictionary/Heads and Duplicate.
-- - Dwarf: the DWARF code. Dwarf/Op sorts the opcodes of expressions as encodeDwarfExprInstr of
--   src/dwarf_instr.c and as parseDwarfExpression of src/fderead.c do; Dwarf/Expr has the encoder and
--   the parser; Dwarf/Register has the registers of src/register.c as LEB128 numbers; Dwarf/Cfa has
--   the call frame instructions, serialized by addInstruction and its callers in src/dwarf_instr.c,
--   and Dwarf/Cfa/Parse has parseFDEInstructions of src/fderead.c. Expressions and instructions are
--   encoded into a growing buffer, with numbers and registers in LEB128.
-- - DwarfVm: the rules that src/dwarfvm.c makes of call frame instructions in
--   evaluateInstructionsToRules, on a dictionary of rules that is an interface (DwarfVm/Dictionary);
--   DwarfVm/Assoc fills it with a list of pairs, DwarfVm/Table with
--   the hash table of Util/Map. It evaluates the instructions that Dwarf/Cfa/Parse makes.
--   Initial says which instructions it takes to their end. DwarfVm/Evaluate is evaluateDwarfExpression, on the bytes that Dwarf/Expr writes.
-- - EhPe: the pointers of .eh_frame, encoded and decoded by src/eh_pe.c.
-- - CallFrame: the sections that src/callFrameInfo.c makes. CallFrame/CieBytes and FdeBytes are
--   buildCIERawData and buildFDERawData, which prepare their parts and then add them to the buffer;
--   Build is buildCallFrameSectionData, with .eh_frame_hdr, where qsort is an insertion sort.
--   Augmentation has the augmentation data as it is parsed, and Read the loops of readDebugFrame in
--   src/fderead.c over CIEs and FDEs, on what libdwarf gives. They use Dwarf/Cfa for the
--   instructions, DwarfVm for the initial rules of a CIE, EhPe for pointers, and ExceptTable for the LSDAs that FDEs point at.
-- - ExceptTable: the tables of .gcc_except_table in src/exceptTable.c. ExceptTable and its child Build
--   are buildExceptTableRawData; Read, Actions and Parse are parseExceptFrame and the functions that
--   read call sites, actions and types. What ends in a fault and what never ends are told apart
--   in the outcome of Base/Outcome, as for Types.
-- - Patcher: what src/patcher/safety.c computes without the target process. Registers has
--   setRegValueFromDwarfRegNum and getRegValueFromDwarfRegNum with the macros of src/arch.h, for both
--   architectures; Frames has getFDEForPC, the binary search for the FDE of a place.
-- - Types: the comparison of two versions of a type in src/patchwrite/typediff.c, with the types of
--   src/types.h. Types are in a store, and a pointer to one is its place. Types/Compare has
--   compareTypesAndGenTransforms by its parts, where the recursion is a parameter of the parts;
--   Types/After relates a store to one that a comparison leaves behind, Parts follows the parts with
--   it, and Noted and Ends the whole.
-- - Base: what all of them share: tests, lists, bits, and access to memory.
--
-- How the C is rendered. Memory is a list of bytes; an access outside an object, a failed assert and
-- a death are `none`. Unsigned integers are natural numbers with their wraparound written out where
-- the code can reach it; an int, an sword_t and a size_t are their bit patterns. A machine word and
-- an address have 8 bytes, and the machine is little-endian. An int that counts the bytes of an
-- object in memory is a number below 2 ^ 31, and a short that counts the septets of one LEB128 number
-- is below 2 ^ 16: longer objects are not modelled. Memory is never exhausted,
-- and in a hash table the address of a freed node is not used again.
--
-- Loops run on the number of septets, on the list they walk, or on fuel: parseDwarfExpression,
-- parseFDEInstructions and evaluateDwarfExpression take at least one byte in each round, so the number of bytes is fuel enough,
-- which the round trips show on every input they cover. A chain of actions is written in as many
-- rounds as there are actions and one more, and read in as many as the section has bytes and one
-- more, which the theorems on termination show. A call site takes at least a byte and a type its size,
-- so the sizes of their tables are fuel enough, and the search for augmentation data moves on by a byte
-- at least. The search for an FDE has a round more than there are FDEs; the half it computes in floats
-- is exact below 2 ^ 24. The comparison of types has a depth of one more than there are types, since
-- each type is compared but once. A call site that takes no bytes, at the end of a section cut short, is a fault.
--
-- The numbers of <dwarf.h> are a parameter (`OpCodes`, `CfaCodes`, `PeCodes`): what the code relies on
-- is that each opcode is a byte of the right range with its own case. Dwarf/Numbers has the numbers of
-- the DWARF standard, on which the tests run.
--
-- Not modelled: the section headers that are filled in for libelf; the readers and writers of ELF
-- objects (src/elfparse.c, src/elfwriter.c, src/elfutil.c, src/symbol.c, src/relocation.c), which call
-- libelf; reading the types of a program (src/dwarftypes.c) by libdwarf, and freeing them; the rest of
-- the patcher, which drives the target by ptrace (src/patcher), and of the patch writer
-- (src/patchwrite), which goes through ELF objects; the shell with its generated parser (src/shell);
-- printing, logging and files.
pub mod Base
pub mod CallFrame
pub mod Dwarf
pub mod DwarfVm
pub mod EhPe
pub mod ExceptTable
pub mod Leb
pub mod Patcher
pub mod Types
pub mod Util
