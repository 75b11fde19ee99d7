-- ===== src/ExceptTable/Parse.antt =====
-- `parseExceptFrame` of src/exceptTable.c, on the data of the section and its address.
use kanana.Base.{
  ℕ, suc, ◌+◌, ◌-◌, ◌%◌, ◌^◌, Option, some, List, [], ◌∷◌, leb, ◌==◌, if◌then◌else◌, length,
  get_elem?, drop,
}
use kanana.Base.Memory.{◌>>=◌, ◌>>◌, assert}
use kanana.EhPe.{PeCodes, leb_bytes, decode_eh_pointer, get_pointer_size_from_eh_pointer_encoding}
use kanana.ExceptTable.{Lsda}
use kanana.ExceptTable.Read.{read_call_sites, read_types}
use kanana.Base.Outcome.{Outcome, done, then_run, or_fault}
use kanana.ExceptTable.Actions.{read_action_table}

-- The header of an LSDA: `tt_base` is an offset into the section, and `offset` where the call sites start.
pub record Header : Type 0 where
  pub lp_start : ℕ
  pub tt_encoding : ℕ
  pub tt_base : ℕ
  pub call_site_format : ℕ
  pub call_site_table_size : ℕ
  pub offset : ℕ

module _ (pe : PeCodes) (bitwidth : ℕ) (section : List ℕ) (section_address : ℕ) where
  abbrev decode_at : ℕ → ℕ → Option (ℕ × ℕ)
  decode_at offset encoding =
      decode_eh_pointer pe bitwidth (drop offset section) (length section - offset)
        ((section_address + offset) % 2 ^ 64) encoding

  -- A field of the header that is left out takes no bytes.
  unfoldable pub read_lp_start : ℕ → Option (ℕ × ℕ)
  read_lp_start offset = do
    lp_start_format ← get_elem? section offset
    let given = decode_at (offset + 1) lp_start_format >>= λ (lp_start, n). some (lp_start, 1 + n)
    if lp_start_format == pe.omit then some (0, 1) else given

  unfoldable pub read_tt_base : ℕ → ℕ → Option (ℕ × ℕ)
  read_tt_base offset tt_encoding = do
    let given = leb_bytes (drop offset section) >>= λ (distance, septets).
        some ((distance + offset + septets) % 2 ^ 64, septets)
    if tt_encoding == pe.omit then some (0, 0) else given

  unfoldable pub read_header : ℕ → Option Header
  read_header offset = do
    (lp_start, n) ← read_lp_start offset
    tt_encoding ← get_elem? section (offset + n)
    let offset1 = offset + n + 1
    (tt_base, septets) ← read_tt_base offset1 tt_encoding
    let offset2 = offset1 + septets
    call_site_format ← get_elem? section offset2
    (size, m) ← decode_at (offset2 + 1) call_site_format
    assert (leb (offset2 + 1 + m) (length section))
    some (record {
      lp_start = lp_start;
      tt_encoding = tt_encoding;
      tt_base = tt_base;
      call_site_format = call_site_format;
      call_site_table_size = size;
      offset = offset2 + 1 + m;
    })

  -- The types up to the end of the table, and where the LSDA ends.
  unfoldable pub read_type_table : Header → ℕ → Option (List ℕ × ℕ)
  read_type_table h offset = do
    let given = do
      size ← get_pointer_size_from_eh_pointer_encoding pe bitwidth h.tt_encoding
      types ←
          read_types pe bitwidth section_address h.tt_encoding size (suc (h.tt_base - offset))
            (drop offset section) offset (h.tt_base - offset)
      some (types, h.tt_base)
    (types, end_offset) ← if h.tt_encoding == pe.omit then some ([], offset) else given
    assert (leb end_offset (length section))
    some (types, end_offset)

  unfoldable pub read_lsda : ℕ → Outcome Lsda
  read_lsda offset = or_fault (read_header offset) λ h.
      or_fault
        (read_call_sites pe bitwidth section_address h.call_site_format h.call_site_table_size
          (drop h.offset section) h.offset h.call_site_table_size)
        λ (sites, n).
          then_run (read_action_table (drop (h.offset + n) section) sites) λ (sites', actions).
            or_fault (assert (leb (h.offset + n + actions.highest) (length section))) λ _.
              or_fault (read_type_table h (h.offset + n + actions.highest)) λ (types, _).
                done (record {
                  lp_start = h.lp_start;
                  call_site_table = sites';
                  action_table = actions.table;
                  tt_encoding = h.tt_encoding;
                  type_table = types;
                })

  -- The offset of an LSDA wraps around, so that one before the section is out of range.
  unfoldable pub read_lsdas : List ℕ → Outcome (List Lsda)
  read_lsdas [] = done []
  read_lsdas (pointer ∷ pointers) =
      let offset = (pointer + 2 ^ 64 - section_address) % 2 ^ 64 in
      or_fault (assert (leb offset (length section))) λ _.
        then_run (read_lsda offset)
          λ lsda. then_run (read_lsdas pointers) λ lsdas. done (lsda ∷ lsdas)

  unfoldable pub parse_except_frame : List ℕ → Outcome (List Lsda)
  parse_except_frame lsda_pointers =
      let all = read_lsdas lsda_pointers in if length section == 0 then done [] else all
