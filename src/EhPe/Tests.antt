-- ===== src/EhPe/Tests.antt =====
-- The pointers of .eh_frame with the numbers of the Linux Standard Base.
use kanana.Base.{◌+◌, ◌-◌, ◌^◌, ◌≡◌, refl, arith, some, [], ◌++◌}
use kanana.Leb.Words.{le_bytes}
use kanana.EhPe.{
  format, application, format_size, applied, encode_eh_pointer_from_encoding, decode_eh_pointer,
}
use kanana.EhPe.Numbers.{lsb}
use kanana.EhPe.Laws.{decode_eh_pointer-encode, decode_eh_pointer-negative}

-- DW_EH_PE_pcrel | DW_EH_PE_udata4
decode_eh_pointer-encode_example :
    (encode_eh_pointer_from_encoding lsb 64 0x400500 0x13 0x400100 ≡ some (0x400, 4))
    × (decode_eh_pointer lsb 64 (le_bytes 4 0x400 ++ []) 4 0x400100 0x13 ≡ some (0x400500, 4))
unfolding format application format_size applied
decode_eh_pointer-encode_example =
    decode_eh_pointer-encode lsb 64 0x400500 0x13 0x400100 4 0x400 4 [] (omega arith) (omega arith)
      (omega arith) refl refl refl (omega arith) (omega arith)

-- DW_EH_PE_pcrel | DW_EH_PE_sdata4
decode_eh_pointer-negative_example :
    (encode_eh_pointer_from_encoding lsb 64 0x400000 0x1b 0x400100 ≡ some (2 ^ 64 - 0x100, 4))
    × (decode_eh_pointer lsb 64 (le_bytes 4 (2 ^ 64 - 0x100) ++ []) 4 0x400100 0x1b
        ≡ some (0x400000 + 2 ^ 32, 4))
unfolding format application
decode_eh_pointer-negative_example =
    decode_eh_pointer-negative lsb 64 0x1b 0x400100 0x100 [] refl refl refl (omega arith)
      (omega arith) (omega arith) (omega arith)
