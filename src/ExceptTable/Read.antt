-- ===== src/ExceptTable/Read.antt =====
-- `readCallSiteTable` and `readTypeTable` of src/exceptTable.c.
use kanana.Base.{
  ℕ, zero, suc, ◌+◌, ◌-◌, ◌%◌, ◌^◌, Option, none, some, List, [], ◌∷◌, not, leb, ltb, ◌==◌,
  if◌then◌else◌, length, drop,
}
use kanana.Base.Memory.{◌>>=◌, ◌>>◌, assert}
use kanana.EhPe.{PeCodes, decode_eh_pointer}
use kanana.ExceptTable.{CallSiteRecord}

-- The call sites of a table of some bytes. `bytes` is what is left of the section, and `offset` its place.
module _ (pe : PeCodes) (bitwidth : ℕ) (section_address format : ℕ) where
  unfoldable pub read_field : List ℕ → ℕ → Option (ℕ × ℕ)
  read_field bytes offset =
      decode_eh_pointer pe bitwidth bytes (length bytes) ((section_address + offset) % 2 ^ 64)
        format

  -- The first action is still an offset, one more than it is.
  unfoldable pub read_call_site : List ℕ → ℕ → Option (CallSiteRecord × ℕ)
  read_call_site bytes offset = do
    (position, n1) ← read_field bytes offset
    (size, n2) ← read_field (drop n1 bytes) (offset + n1)
    (pad, n3) ← read_field (drop (n1 + n2) bytes) (offset + n1 + n2)
    (action, n4) ← read_field (drop (n1 + n2 + n3) bytes) (offset + n1 + n2 + n3)
    some (
      record {
        position = position;
        call_length = size;
        landing_pad_position = pad;
        first_action = (action + 2 ^ 64 - 1) % 2 ^ 64;
        has_action = not (action == 0);
      },
      n1 + n2 + n3 + n4,
    )

  -- The table, of which `left` bytes are to come; the first argument bounds the rounds.
  unfoldable pub read_call_sites : ℕ → List ℕ → ℕ → ℕ → Option (List CallSiteRecord × ℕ)
  read_call_sites zero bytes offset left = if left == 0 then some ([], 0) else none
  read_call_sites (suc rounds) bytes offset left = do
    let more = do
      (site, n) ← read_call_site bytes offset
      assert (leb n left)
      (sites, m) ← read_call_sites rounds (drop n bytes) (offset + n) (left - n)
      some (site ∷ sites, n + m)
    if left == 0 then some ([], 0) else more

-- The type table, from its end down to the end of the action table; `top` is the distance from there of the
-- entry that is read next, and the first argument bounds the rounds.
module _ (pe : PeCodes) (bitwidth : ℕ) (section_address encoding size : ℕ) where
  unfoldable pub read_types : ℕ → List ℕ → ℕ → ℕ → Option (List ℕ)
  read_types zero bytes offset top = none
  read_types (suc rounds) bytes offset top = do
    let more = do
      (type, _) ←
          decode_eh_pointer pe bitwidth (drop (top - size) bytes) size
            ((section_address + offset + (top - size)) % 2 ^ 64) encoding
      types ← read_types rounds bytes offset (top - size)
      some (type ∷ types)
    if ltb top size then some [] else more
