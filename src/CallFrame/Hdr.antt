-- ===== src/CallFrame/Hdr.antt =====
-- The sections that `buildCallFrameSectionData` of src/callFrameInfo.c makes.
use mathlib.Core.Path.{subst}
use mathlib.Core.List.{Perm}
use kanana.Base.{
  ℕ, ◌^◌, ◌<◌, ◌≡◌, ap, ◌∙◌, arith, Option, some, List, [], ◌∷◌, ◌++◌, map, true, if◌then◌else◌,
  length, All,
}
use kanana.Base.Memory.{bind-some, taken}
use kanana.Dwarf.Op.{OpCodes}
use kanana.Dwarf.Cfa.{CfaCodes}
use kanana.EhPe.{PeCodes, Format}
use kanana.Util.GrowingBuffer.{GrowingBuffer, zeroed}
use kanana.CallFrame.{Cie, Fde}
use kanana.CallFrame.CieBytes.{build_cie_raw_data}
use kanana.CallFrame.FdeBytes.{build_fde_raw_data}
use kanana.CallFrame.Build.{
  CallFrameInfo, CallFrameSectionData, EhFrameHdrTableEntry, at_most, qsort, hdr_entry, hdr_table,
  hdr_header, entry_bytes, build_eh_frame_hdr, build_each, build_call_frame_section_data,
  initial_buffer,
}
use kanana.ExceptTable.Build.{build_except_table_raw_data}
use kanana.CallFrame.Sizes.{joined}
use kanana.CallFrame.Layout.{
  LaidOut, CieEntry, FdeEntry, build_cie_raw_data-Entry, build_fde_raw_data-Entry,
  build_each-LaidOut, add_all-bytes,
}
use kanana.CallFrame.Qsort.{qsort-Perm, Ascends, above, hdr_table-Ascends}

-- The bytes of .eh_frame or .debug_frame are the CIEs and behind them the FDEs.
abbrev pub Frames : CallFrameInfo → List ℕ → List ℕ → List ℕ → Type 0
Frames info cie_offsets fde_offsets bytes =
    let cfi = info.section in
    (cie_bytes : List ℕ) × (fde_bytes : List ℕ) × (bytes ≡ cie_bytes ++ fde_bytes)
    × LaidOut (CieEntry cfi) 0 info.cies cie_offsets cie_bytes
    × LaidOut (FdeEntry cfi cie_offsets) (length cie_bytes) info.fdes fde_offsets fde_bytes

module _ (pe : PeCodes) (bitwidth : ℕ) (number : Format → ℕ) (pcrel_number : ℕ) (stale : List ℕ)
    (codes : CfaCodes) (ops : OpCodes) where
  abbrev Hdr : CallFrameInfo → List ℕ → List ℕ → Type 0
  Hdr info fde_offsets bytes =
      let cfi = info.section in
      let made =
        if cfi.is_eh_frame
        then build_eh_frame_hdr pe bitwidth number pcrel_number cfi info.fdes fde_offsets
        else some zeroed in
      (buf : GrowingBuffer) × (made ≡ some buf) × (bytes ≡ buf.bytes)

  -- The header, which counts the FDEs, and the table: an entry for each FDE, sorted.
  abbrev pub Table : CallFrameInfo → List ℕ → ℕ → List ℕ → Type 0
  Table info fde_offsets lo bytes =
      let cfi = info.section in
      (header : List ℕ) × (table : List EhFrameHdrTableEntry) × (hdr_header pe bitwidth number
          pcrel_number cfi (length info.fdes)
        ≡ some header)
      × (bytes ≡ header ++ joined (map entry_bytes table))
      × Perm table (hdr_table cfi info.fdes fde_offsets)
      × Ascends (above lo) table

  build_eh_frame_hdr-Table :
      (info : CallFrameInfo) (fde_offsets : List ℕ) (lo : ℕ) (bytes : List ℕ)
      → lo < 2 ^ 32
      → All (λ fde. above lo (hdr_entry info.section fde 0) < 2 ^ 31) info.fdes
      → (buf : GrowingBuffer) × (build_eh_frame_hdr pe bitwidth number pcrel_number info.section
            info.fdes fde_offsets
          ≡ some buf)
        × (bytes ≡ buf.bytes)
      → Table info fde_offsets lo bytes
  unfolding build_eh_frame_hdr
  build_eh_frame_hdr-Table info fde_offsets lo bytes h near (buf, made, held) =
      let cfi = info.section in
      let table = qsort at_most (hdr_table cfi info.fdes fde_offsets) in
      let (header, made_header, run) =
        bind-some (hdr_header pe bitwidth number pcrel_number cfi (length info.fdes)) _ buf made in
      let (held', _) =
        add_all-bytes zeroed buf (header ∷ map entry_bytes table) (omega arith) run in
      (
        header,
        table,
        made_header,
        held ∙ held',
        qsort-Perm at_most (hdr_table cfi info.fdes fde_offsets),
        hdr_table-Ascends lo h cfi info.fdes fde_offsets near,
      )

  build_call_frame_section_data-Frames :
      (info : CallFrameInfo) (out : CallFrameSectionData)
      → build_call_frame_section_data pe bitwidth number stale codes ops pcrel_number info
        ≡ some out
      → (cie_offsets : List ℕ) × (fde_offsets : List ℕ) × Frames info cie_offsets fde_offsets
          out.eh_data
        × Hdr info fde_offsets out.eh_hdr_data
  unfolding build_call_frame_section_data
  build_call_frame_section_data-Frames info out run =
      let cfi = info.section in
      let ((table, lsda_pointers), _, run1) =
        bind-some
          (if cfi.is_eh_frame
            then build_except_table_raw_data pe bitwidth number info.except_table_address
                info.except_table zeroed
            else some (zeroed, []))
          _ out run in
      let build_cie : Cie → GrowingBuffer → Option GrowingBuffer =
        λ cie buf. build_cie_raw_data pe bitwidth number stale codes ops cie buf cfi in
      let ((buf, cie_offsets), built_cies, run2) =
        bind-some (build_each build_cie info.cies initial_buffer) _ out run1 in
      let build_fde : Fde → GrowingBuffer → Option GrowingBuffer =
        λ fde buf. build_fde_raw_data pe bitwidth codes ops cfi fde cie_offsets lsda_pointers buf in
      let ((buf', fde_offsets), built_fdes, run3) =
        bind-some (build_each build_fde info.fdes buf) _ out run2 in
      let (hdr, built_hdr, run4) =
        bind-some
          (if cfi.is_eh_frame
            then build_eh_frame_hdr pe bitwidth number pcrel_number cfi info.fdes fde_offsets
            else some zeroed)
          _ out run3 in
      let (cie_bytes, held, h, cies_LaidOut) =
        build_each-LaidOut build_cie (CieEntry cfi)
          (build_cie_raw_data-Entry pe bitwidth number stale codes ops cfi) info.cies initial_buffer
          buf cie_offsets (omega arith) built_cies in
      let (fde_bytes, held', h', fdes_LaidOut) =
        build_each-LaidOut build_fde (FdeEntry cfi cie_offsets)
          (build_fde_raw_data-Entry pe bitwidth number stale codes ops cfi cie_offsets
            lsda_pointers)
          info.fdes buf buf' fde_offsets h built_fdes in
      let eh : out.eh_data ≡ buf'.bytes = cc in
      let hdr_data : out.eh_hdr_data ≡ hdr.bytes = cc in
      (
        cie_offsets,
        fde_offsets,
        (
          cie_bytes,
          fde_bytes,
          eh ∙ (held' ∙ ap (λ bs. bs ++ fde_bytes) held),
          cies_LaidOut,
          subst
              (λ bs. LaidOut (FdeEntry cfi cie_offsets) (length bs) info.fdes fde_offsets fde_bytes)
              held fdes_LaidOut,
        ),
        (hdr, built_hdr, hdr_data),
      )

  -- When `buildCallFrameSectionData` makes the sections, the bytes of .eh_frame or .debug_frame are
  -- the CIEs and then the FDEs, one behind the other. Each starts at the offset that was noted for it,
  -- with four bytes that say how many follow, a multiple of the address size; then comes the word of a
  -- CIE, or the word of an FDE, which leads to its CIE: in .eh_frame from the word itself back to the
  -- offset noted for the CIE, else it is that offset.
  pub build_call_frame_section_data-LaidOut :
      (info : CallFrameInfo) (out : CallFrameSectionData)
      → build_call_frame_section_data pe bitwidth number stale codes ops pcrel_number info
        ≡ some out
      → (cie_offsets : List ℕ) × (fde_offsets : List ℕ) × Frames info cie_offsets fde_offsets
          out.eh_data
  build_call_frame_section_data-LaidOut info out run =
      let (cie_offsets, fde_offsets, frames, _) =
        build_call_frame_section_data-Frames info out run in
      (cie_offsets, fde_offsets, frames)

  -- When `buildCallFrameSectionData` makes .eh_frame, .eh_frame_hdr is its header, with the number of
  -- the FDEs, and an entry for each FDE with its initial location and the offset at which it was laid
  -- out, relative to the header. If the initial locations lie within 2 ^ 31 above one of them, the
  -- entries are sorted by how far they do.
  pub build_call_frame_section_data-Ascends :
      (info : CallFrameInfo) (out : CallFrameSectionData) (lo : ℕ)
      → build_call_frame_section_data pe bitwidth number stale codes ops pcrel_number info
        ≡ some out
      → info.section.is_eh_frame ≡ true
      → lo < 2 ^ 32
      → All (λ fde. above lo (hdr_entry info.section fde 0) < 2 ^ 31) info.fdes
      → (cie_offsets : List ℕ) × (fde_offsets : List ℕ) × Frames info cie_offsets fde_offsets
          out.eh_data
        × Table info fde_offsets lo out.eh_hdr_data
  build_call_frame_section_data-Ascends info out lo run eh h near =
      let (cie_offsets, fde_offsets, frames, (buf, made, held)) =
        build_call_frame_section_data-Frames info out run in
      (
        cie_offsets,
        fde_offsets,
        frames,
        build_eh_frame_hdr-Table info fde_offsets lo out.eh_hdr_data h near
            (buf, taken info.section.is_eh_frame _ _ _ eh made, held),
      )
