-- ===== src/EhPe/Laws.antt =====
-- `decodeEHPointer` on what `encodeEHPointerFromEncoding` of src/eh_pe.c encodes.
use kanana.Base.{
  ℕ, ◌+◌, ◌-◌, ◌%◌, ◌^◌, ◌≤◌, ◌<◌, ◌≡◌, refl, sym, ap, ◌∙◌, arith, some, List, ◌++◌, true, false,
  leb, ltb, ◌==◌,
}
use kanana.Leb.Words.{le_bytes, decoded}
use kanana.Leb.Words.Laws.{length-le_bytes, le_value-le_bytes}
use kanana.Dwarf.Expr.Reads.{read_bytes-le_bytes, le_value_four}
use kanana.EhPe.{
  Format, absptr, uleb128, udata2, udata4, udata8, sleb128, sdata2, sdata4, sdata8, unknown_format,
  Application, direct, pcrel, textrel, datarel, funcrel, aligned, unknown_application, PeCodes,
  format, application, pointer_size, format_size, get_pointer_size_from_eh_pointer_encoding,
  sub_addr, applied, encode_eh_pointer_from_encoding, fixed_bytes, absolute_bytes, read_format,
  unapplied, decode_eh_pointer,
}

-- The number of bytes that the decoder reports: four for the formats of eight bytes.
abbrev pub reported : Format → ℕ → ℕ
reported udata8 size = 4
reported sdata8 size = 4
reported _ size = size

fixed_bytes-le_bytes :
    (n address len read : ℕ) (rest : List ℕ)
    → address < 256 ^ n
    → n ≤ len
    → fixed_bytes (le_bytes n address ++ rest) len n read ≡ some (address, read)
unfolding fixed_bytes
fixed_bytes-le_bytes n address len read rest h enough =
    let fits : leb n len ≡ true = ground arith in
    rw (fits, read_bytes-le_bytes n address rest)
      (ap (λ v. some (v, read)) (le_value-le_bytes n address h))

pointer_size-le : (bitwidth : ℕ) → bitwidth ≤ 64 → leb (pointer_size bitwidth) 8 ≡ true
unfolding pointer_size
pointer_size-le bitwidth h = ground arith

absolute_bytes-le_bytes :
    (bitwidth address len : ℕ) (rest : List ℕ)
    → bitwidth ≤ 64
    → address < 256 ^ pointer_size bitwidth
    → pointer_size bitwidth ≤ len
    → absolute_bytes bitwidth (le_bytes (pointer_size bitwidth) address ++ rest) len
      ≡ some (address, pointer_size bitwidth)
unfolding absolute_bytes decoded
absolute_bytes-le_bytes bitwidth address len rest hb h enough =
    let size = pointer_size bitwidth in
    let fits : ltb len size ≡ false = ground arith in
    let word : leb size 8 ≡ true = pointer_size-le bitwidth hb in
    rw (fits, read_bytes-le_bytes size address rest, length-le_bytes size address, word)
      (ap (λ v. some (v, size)) (le_value-le_bytes size address h))

some-eq : {a b : ℕ} → some a ≡ some b → a ≡ b
some-eq h = cc

fixed-same :
    (n size address len read : ℕ) (rest : List ℕ)
    → n ≡ size
    → address < 256 ^ size
    → size ≤ len
    → fixed_bytes (le_bytes size address ++ rest) len n read ≡ some (address, read)
fixed-same n size address len read rest e h enough =
    rw e (fixed_bytes-le_bytes size address len read rest h enough)

read_format-le_bytes :
    (f : Format) (bitwidth size address len : ℕ) (rest : List ℕ)
    → bitwidth ≤ 64
    → format_size bitwidth f ≡ some size
    → address < 256 ^ size
    → size ≤ len
    → read_format bitwidth (le_bytes size address ++ rest) len f ≡ some (address, reported f size)
unfolding read_format format_size
read_format-le_bytes absptr bitwidth size address len rest hb e h enough = rw (some-eq e) at (
    absolute_bytes-le_bytes bitwidth address len rest hb (rw (some-eq e) h) (rw (some-eq e) enough))
read_format-le_bytes udata2 bitwidth size address len rest hb e h enough =
    fixed-same 2 size address len 2 rest (some-eq e) h enough
    ∙ ap (λ n. some (address, n)) (some-eq e)
read_format-le_bytes sdata2 bitwidth size address len rest hb e h enough =
    fixed-same 2 size address len 2 rest (some-eq e) h enough
    ∙ ap (λ n. some (address, n)) (some-eq e)
read_format-le_bytes udata4 bitwidth size address len rest hb e h enough =
    fixed-same 4 size address len 4 rest (some-eq e) h enough
    ∙ ap (λ n. some (address, n)) (some-eq e)
read_format-le_bytes sdata4 bitwidth size address len rest hb e h enough =
    fixed-same 4 size address len 4 rest (some-eq e) h enough
    ∙ ap (λ n. some (address, n)) (some-eq e)
read_format-le_bytes udata8 bitwidth size address len rest hb e h enough =
    fixed-same 8 size address len 4 rest (some-eq e) h enough
read_format-le_bytes sdata8 bitwidth size address len rest hb e h enough =
    fixed-same 8 size address len 4 rest (some-eq e) h enough
read_format-le_bytes uleb128 bitwidth size address len rest hb e h enough = cc
read_format-le_bytes sleb128 bitwidth size address len rest hb e h enough = cc
read_format-le_bytes unknown_format bitwidth size address len rest hb e h enough = cc

unapplied-applied :
    (a : Application) (pointer location address : ℕ)
    → pointer < 2 ^ 64
    → location < 2 ^ 64
    → applied a pointer location ≡ some address
    → unapplied a address location ≡ some pointer
unfolding applied unapplied
unapplied-applied direct pointer location address hp hl e = ap some (some-eq (sym e))
unapplied-applied pcrel pointer location address hp hl e =
    let same : sub_addr pointer location ≡ address = some-eq e in ap some (omega (arith, same))
unapplied-applied textrel pointer location address hp hl e = cc
unapplied-applied datarel pointer location address hp hl e = cc
unapplied-applied funcrel pointer location address hp hl e = cc
unapplied-applied aligned pointer location address hp hl e = cc
unapplied-applied unknown_application pointer location address hp hl e = cc

module _ (codes : PeCodes) where
  -- A pointer encoded by `encodeEHPointerFromEncoding` in a format of fixed size, directly or relative
  -- to where it stands, is decoded from the bytes written by `decodeEHPointer`, with the place as the
  -- start address, as the same pointer, if the encoded address fits the bytes of the format as an
  -- unsigned number. The number of bytes reported is that of the format, but four where it is eight.
  pub decode_eh_pointer-encode :
      (bitwidth pointer encoding location size address len : ℕ) (rest : List ℕ)
      → bitwidth ≤ 64
      → pointer < 2 ^ 64
      → location < 2 ^ 64
      → (encoding == codes.omit) ≡ false
      → format_size bitwidth (format codes encoding) ≡ some size
      → applied (application codes encoding) pointer location ≡ some address
      → address < 256 ^ size
      → size ≤ len
      → (encode_eh_pointer_from_encoding codes bitwidth pointer encoding location
          ≡ some (address, size))
        × (decode_eh_pointer codes bitwidth (le_bytes size address ++ rest) len location encoding
            ≡ some (pointer, reported (format codes encoding) size))
  unfolding encode_eh_pointer_from_encoding get_pointer_size_from_eh_pointer_encoding
      decode_eh_pointer
  decode_eh_pointer-encode bitwidth pointer encoding location size address len rest hb hp hl
        some_size hs ha fits enough =
      let read =
        read_format-le_bytes (format codes encoding) bitwidth size address len rest hb hs fits
          enough in
      let back = unapplied-applied (application codes encoding) pointer location address hp hl ha in
      (rw (some_size, hs, ha) refl, rw (read, back) refl)

  -- A pointer to something before it, encoded relative to where it stands in the signed format of four
  -- bytes, is decoded without its sign: what `decodeEHPointer` returns is 2 ^ 32 too large.
  pub decode_eh_pointer-negative :
      (bitwidth encoding location distance : ℕ) (rest : List ℕ)
      → (encoding == codes.omit) ≡ false
      → format codes encoding ≡ sdata4
      → application codes encoding ≡ pcrel
      → location < 2 ^ 64
      → 0 < distance
      → distance ≤ location
      → distance ≤ 2 ^ 31
      → (encode_eh_pointer_from_encoding codes bitwidth (location - distance) encoding location
          ≡ some (2 ^ 64 - distance, 4))
        × (decode_eh_pointer codes bitwidth
              (le_bytes 4 (2 ^ 64 - distance) ++ rest)
              4
              location
              encoding
            ≡ some ((location - distance + 2 ^ 32) % 2 ^ 64, 4))
  unfolding encode_eh_pointer_from_encoding get_pointer_size_from_eh_pointer_encoding
      decode_eh_pointer format_size applied read_format unapplied fixed_bytes
  decode_eh_pointer-negative bitwidth encoding location distance rest some_size hf ha hl pos behind
        near =
      let minus : sub_addr (location - distance) location ≡ 2 ^ 64 - distance = omega arith in
      let word = le_value_four (2 ^ 64 - distance) in
      let sum : ((2 ^ 64 - distance) % 2 ^ 32 + location) % 2 ^ 64
          ≡ (location - distance + 2 ^ 32) % 2 ^ 64 =
        omega arith in
      (
        rw (some_size, hf, ha) (ap (λ a. some (a, 4)) minus),
        rw (hf, ha, read_bytes-le_bytes 4 (2 ^ 64 - distance) rest, word)
            (ap (λ a. some (a, 4)) sum),
      )
