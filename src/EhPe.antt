-- ===== src/EhPe.antt =====
-- src/eh_pe.c: the pointers of .eh_frame. An encoding is one byte: the format in its low four bits, how
-- the pointer is applied in the high four.
pub mod Laws
pub mod Numbers
mod Tests
use kanana.Base.{
  ℕ, ◌+◌, ◌-◌, ◌*◌, ◌/◌, ◌%◌, ◌^◌, ◌≤◌, Option, none, some, List, [], ◌∷◌, Bool, true, false, leb,
  ltb, ◌==◌, if◌then◌else◌, length, take,
}
use kanana.Base.Memory.{◌>>=◌, ◌>>◌, assert, read_bytes}
use kanana.Leb.{decode_leb128}
use kanana.Leb.Value.{le_value}
use kanana.Leb.Words.{decoded}

pub data Format : Type 0 where
  absptr uleb128 udata2 udata4 udata8 sleb128 sdata2 sdata4 sdata8 unknown_format : Format

pub data Application : Type 0 where
  direct pcrel textrel datarel funcrel aligned unknown_application : Application

-- The DW_EH_PE numbers of <dwarf.h>: the cases that the low four bits and the next three take, and
-- DW_EH_PE_omit. DW_EH_PE_indirect is the top bit, as src/eh_pe.h has it.
pub record PeCodes : Type 0 where
  pub format_of : ℕ → Format
  pub application_of : ℕ → Application
  pub omit : ℕ

unfoldable pub format : PeCodes → ℕ → Format
format codes encoding = codes.format_of (encoding % 16)

-- `encoding & 0xF0 & ~DW_EH_PE_indirect`
unfoldable pub application : PeCodes → ℕ → Application
application codes encoding = codes.application_of (encoding / 16 % 8)

-- `config.recent_elf_bitwidth? config.recent_elf_bitwidth/8 : sizeof(addr_t)`
unfoldable pub pointer_size : ℕ → ℕ
pointer_size bitwidth = if bitwidth == 0 then 8 else bitwidth / 8

unfoldable pub format_size : ℕ → Format → Option ℕ
format_size bitwidth absptr = some (pointer_size bitwidth)
format_size bitwidth udata2 = some 2
format_size bitwidth sdata2 = some 2
format_size bitwidth udata4 = some 4
format_size bitwidth sdata4 = some 4
format_size bitwidth udata8 = some 8
format_size bitwidth sdata8 = some 8
format_size bitwidth _ = none

unfoldable pub get_pointer_size_from_eh_pointer_encoding : PeCodes → ℕ → ℕ → Option ℕ
get_pointer_size_from_eh_pointer_encoding codes bitwidth encoding =
    if encoding == codes.omit then some 0 else format_size bitwidth (format codes encoding)

-- `pointer-pointerLocation` on addresses.
abbrev pub sub_addr : ℕ → ℕ → ℕ
sub_addr a b = (a + 2 ^ 64 - b % 2 ^ 64) % 2 ^ 64

unfoldable pub applied : Application → ℕ → ℕ → Option ℕ
applied direct pointer location = some pointer
applied pcrel pointer location = some (sub_addr pointer location)
applied _ pointer location = none

-- The address, and how many of its bytes are to be written.
unfoldable pub encode_eh_pointer_from_encoding : PeCodes → ℕ → ℕ → ℕ → ℕ → Option (ℕ × ℕ)
encode_eh_pointer_from_encoding codes bitwidth pointer encoding location = do
  size ← get_pointer_size_from_eh_pointer_encoding codes bitwidth encoding
  address ← applied (application codes encoding) pointer location
  some (address, size)

-- The bytes of the address that are read, behind the assert on `len`; and the number reported.
unfoldable pub fixed_bytes : List ℕ → ℕ → ℕ → ℕ → Option (ℕ × ℕ)
fixed_bytes bytes_at len size reported = do
  assert (leb size len)
  bytes ← read_bytes size bytes_at
  some (le_value bytes, reported)

-- Both LEB128 formats are decoded as unsigned.
unfoldable pub leb_bytes : List ℕ → Option (ℕ × ℕ)
leb_bytes bytes_at = do
  (bytes, septets) ← decode_leb128 bytes_at false
  word ← decoded 8 bytes
  some (word, septets)

unfoldable pub absolute_bytes : ℕ → List ℕ → ℕ → Option (ℕ × ℕ)
absolute_bytes bitwidth bytes_at len =
    let size = pointer_size bitwidth in
    let size' = if ltb len size then len else size in
    do bytes ← read_bytes size' bytes_at; word ← decoded 8 bytes; some (word, size')

unfoldable pub read_format : ℕ → List ℕ → ℕ → Format → Option (ℕ × ℕ)
read_format bitwidth bytes_at len absptr = absolute_bytes bitwidth bytes_at len
read_format bitwidth bytes_at len sdata2 = fixed_bytes bytes_at len 2 2
read_format bitwidth bytes_at len udata2 = fixed_bytes bytes_at len 2 2
read_format bitwidth bytes_at len sdata4 = fixed_bytes bytes_at len 4 4
read_format bitwidth bytes_at len udata4 = fixed_bytes bytes_at len 4 4
read_format bitwidth bytes_at len udata8 = fixed_bytes bytes_at len 8 4
read_format bitwidth bytes_at len sdata8 = fixed_bytes bytes_at len 8 4
read_format bitwidth bytes_at len uleb128 = leb_bytes bytes_at
read_format bitwidth bytes_at len sleb128 = leb_bytes bytes_at
read_format bitwidth bytes_at len unknown_format = none

unfoldable pub unapplied : Application → ℕ → ℕ → Option ℕ
unapplied direct result start = some result
unapplied pcrel result start = some ((result + start) % 2 ^ 64)
unapplied _ result start = none

-- The pointer, and the number of bytes read as it is reported.
unfoldable pub decode_eh_pointer : PeCodes → ℕ → List ℕ → ℕ → ℕ → ℕ → Option (ℕ × ℕ)
decode_eh_pointer codes bitwidth bytes_at len start encoding = do
  (result, read) ← read_format bitwidth bytes_at len (format codes encoding)
  pointer ← unapplied (application codes encoding) result start
  some (pointer, read)
