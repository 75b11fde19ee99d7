-- ===== src/CallFrame/Layout.antt =====
-- Where `buildCallFrameSectionData` of src/callFrameInfo.c writes CIEs and FDEs.
use mathlib.Core.Path.{subst}
use mathlib.Core.List.{append_assoc, append-nil}
use kanana.Base.{
  ℕ, ◌+◌, ◌-◌, ◌%◌, ◌^◌, ◌<◌, ◌≡◌, refl, sym, arith, Option, none, some, List, [], ◌∷◌, ◌++◌, not,
  ◌==◌, if◌then◌else◌, leb, ◌&&◌, length, length-append, get_elem?, inl, inr, Bool-cases,
}
use kanana.Base.Memory.{bind-some, ◌>>=◌, ◌>>◌, assert}
use kanana.Dwarf.Op.{OpCodes}
use kanana.Dwarf.Cfa.{CfaCodes, serialize_dwarf_reg_instructions}
use kanana.Dwarf.Cfa.Parse.{int_to_word}
use kanana.Leb.Words.{le_bytes, uint_to_leb128}
use kanana.EhPe.{PeCodes, Format}
use kanana.Util.GrowingBuffer.{GrowingBuffer, IsBuffer}
use kanana.CallFrame.{Cie, Fde, Section, add_all}
use kanana.CallFrame.CieBytes.{cie_parts, cie_pieces, build_cie_raw_data}
use kanana.CallFrame.FdeBytes.{
  FdeParts, fde_parts, fde_pieces, build_fde_raw_data, cie_pointer, initial_location, lsda_pointer,
  address_range_size,
}
use kanana.CallFrame.Build.{build_each}
use kanana.CallFrame.Sizes.{
  joined, add_all-joined, Entry, id_of, cie_pieces-Entry, fde_pieces-Entry,
}

-- A body that prepares its parts, divides by a size and writes pieces.
built {ℓ} :
    {A : Type ℓ} (m : Option A) (size : ℕ) (pieces : A → List (List ℕ)) (buf buf' : GrowingBuffer)
    → (m >>= λ p. assert (not (size == 0)) >> add_all buf (pieces p)) ≡ some buf'
    → (p : A) × (m ≡ some p) × (0 < size) × (add_all buf (pieces p) ≡ some buf')
built none size pieces buf buf' h = absurd cc
built (some p) size pieces buf buf' h = elim (Bool-cases (size == 0)) [
  | inl e ↦ absurd (let h' : none ≡ some buf' = rw e at h in cc)
  | inr e ↦ (p, refl, ground arith, rw e at h)
]

-- Items written one behind the other, from an offset on, each at its offset and as `P` says.
abbrev pub LaidOut {ℓ} :
    {A : Type ℓ} → (A → ℕ → List ℕ → Type 0) → ℕ → List A → List ℕ → List ℕ → Type 0
LaidOut P start [] offsets bytes = (offsets ≡ []) × (bytes ≡ [])
LaidOut P start (x ∷ xs) offsets bytes =
    (own : List ℕ) × (rest : List ℕ) × (others : List ℕ) × (offsets ≡ start % 2 ^ 32 ∷ others)
    × (bytes ≡ own ++ rest)
    × P x start own
    × LaidOut P (start + length own) xs others rest

pub add_all-bytes :
    (buf buf' : GrowingBuffer) (pieces : List (List ℕ))
    → IsBuffer buf
    → add_all buf pieces ≡ some buf'
    → (buf'.bytes ≡ buf.bytes ++ joined pieces) × IsBuffer buf'
add_all-bytes buf buf' pieces h run =
    let (out, ran, held, h') = add_all-joined buf pieces h in
    let same : out ≡ buf' = cc in (rw (sym same) held, rw (sym same) h')

abbrev pub CieEntry : Section → Cie → ℕ → List ℕ → Type 0
CieEntry cfi cie start = Entry cie.address_size (id_of cfi)

-- The word of an FDE is the way to its CIE: in .eh_frame from the word back to the CIE, else its offset.
abbrev pub FdeEntry : Section → List ℕ → Fde → ℕ → List ℕ → Type 0
FdeEntry cfi cie_offsets fde start bytes =
    (cie_at : ℕ) × (get_elem? cie_offsets fde.cie.idx ≡ some cie_at)
    × Entry fde.cie.address_size
        (if cfi.is_eh_frame then (start + 2 ^ 32 - cie_at + 4) % 2 ^ 32 else cie_at) bytes

-- A buffer that has become another by some bytes at its end, which are as `P` says.
abbrev pub Appended : (ℕ → List ℕ → Type 0) → GrowingBuffer → GrowingBuffer → Type 0
Appended P buf buf' =
    (own : List ℕ) × (buf'.bytes ≡ buf.bytes ++ own) × IsBuffer buf' × P (length buf.bytes) own

pub build_each-LaidOut {ℓ} :
    {A : Type ℓ} (build : A → GrowingBuffer → Option GrowingBuffer) (P : A → ℕ → List ℕ → Type 0)
    → ((x : A) (buf buf' : GrowingBuffer)
        → IsBuffer buf
        → build x buf ≡ some buf'
        → Appended (P x) buf buf')
    → (xs : List A) (buf buf' : GrowingBuffer) (offsets : List ℕ) → IsBuffer buf
    → build_each build xs buf ≡ some (buf', offsets)
    → Appended (λ start. LaidOut P start xs offsets) buf buf'
unfolding build_each
build_each-LaidOut build P each [] buf buf' offsets h run =
    let same : buf' ≡ buf = cc in
    let none_left : offsets ≡ [] = cc in
    ([], rw same (sym (append-nil buf.bytes)), rw same h, (none_left, refl))
build_each-LaidOut build P each (x ∷ xs) buf buf' offsets h run =
    let (one, ran, more) = bind-some (build x buf) _ _ run in
    let ((last, others), ran', done) = bind-some (build_each build xs one) _ _ more in
    let (own, held, h', own_P) = each x buf one h ran in
    let (rest, held', h'', rest_P) = build_each-LaidOut build P each xs one last others h' ran' in
    let same : buf' ≡ last = cc in
    let offset : offsets ≡ length buf.bytes % 2 ^ 32 ∷ others = cc in
    (
      own ++ rest,
      rw (same, held', held) (append_assoc buf.bytes own rest),
      rw same h'',
      (
        own,
        rest,
        others,
        offset,
        refl,
        own_P,
        rw (sym (length-append buf.bytes own), sym held) rest_P,
      ),
    )

module _ (pe : PeCodes) (bitwidth : ℕ) (number : Format → ℕ) (stale : List ℕ) (codes : CfaCodes)
    (ops : OpCodes) (cfi : Section) where
  pub build_cie_raw_data-Entry :
      (cie : Cie) (buf buf' : GrowingBuffer)
      → IsBuffer buf
      → build_cie_raw_data pe bitwidth number stale codes ops cie buf cfi ≡ some buf'
      → Appended (CieEntry cfi cie) buf buf'
  unfolding build_cie_raw_data
  build_cie_raw_data-Entry cie buf buf' h run =
      let (p, _, pos, added) =
        built (cie_parts pe bitwidth number stale codes ops cie cfi buf) cie.address_size
          (cie_pieces codes cie cfi) buf buf' run in
      let (held, h') = add_all-bytes buf buf' (cie_pieces codes cie cfi p) h added in
      (joined (cie_pieces codes cie cfi p), held, h', cie_pieces-Entry codes cie cfi p pos)

  -- The offset of the CIE, and the word that leads to it.
  fde_parts-cie :
      (cie_offsets lsda_pointers : List ℕ) (fde : Fde) (buf : GrowingBuffer) (p : FdeParts)
      → fde_parts pe bitwidth codes ops cfi fde cie_offsets lsda_pointers buf ≡ some p
      → (cie_at : ℕ) × (get_elem? cie_offsets fde.cie.idx ≡ some cie_at)
        × (p.cie_offset ≡ cie_pointer cfi buf cie_at)
  unfolding fde_parts
  fde_parts-cie cie_offsets lsda_pointers fde buf p run =
      let (raw, _, run1) =
        bind-some (serialize_dwarf_reg_instructions codes ops fde.instructions) _ p run in
      let (cie_at, found, run2) = bind-some (get_elem? cie_offsets fde.cie.idx) _ p run1 in
      let (start, _, run3) =
        bind-some (initial_location pe bitwidth codes ops cfi fde buf) _ p run2 in
      let (_, _, run4) = bind-some (assert (leb (address_range_size cfi fde) 8)) _ p run3 in
      let size = address_range_size cfi fde in
      let range = le_bytes size (int_to_word ((fde.highpc + 2 ^ 32 - fde.lowpc) % 2 ^ 32)) in
      let with_lsda = fde.cie.data_present && (fde.cie.fde_lsda && fde.has_lsda_pointer) in
      let (aug, _, run5) =
        bind-some
          (if with_lsda
            then lsda_pointer pe bitwidth codes ops cfi fde buf lsda_pointers
                (length start + length range)
            else some [])
          _ p run4 in
      let (aug_length, _, run6) =
        bind-some (if fde.cie.data_present then uint_to_leb128 (length aug) else some []) _ p
          run5 in
      (cie_at, found, cc)

  pub build_fde_raw_data-Entry :
      (cie_offsets lsda_pointers : List ℕ) (fde : Fde) (buf buf' : GrowingBuffer)
      → IsBuffer buf
      → build_fde_raw_data pe bitwidth codes ops cfi fde cie_offsets lsda_pointers buf ≡ some buf'
      → Appended (FdeEntry cfi cie_offsets fde) buf buf'
  unfolding build_fde_raw_data cie_pointer
  build_fde_raw_data-Entry cie_offsets lsda_pointers fde buf buf' h run =
      let (p, made, pos, added) =
        built (fde_parts pe bitwidth codes ops cfi fde cie_offsets lsda_pointers buf)
          fde.cie.address_size (fde_pieces codes fde) buf buf' run in
      let (held, h') = add_all-bytes buf buf' (fde_pieces codes fde p) h added in
      let (cie_at, found, back) = fde_parts-cie cie_offsets lsda_pointers fde buf p made in
      (
        joined (fde_pieces codes fde p),
        held,
        h',
        (
          cie_at,
          found,
          subst (λ word. Entry fde.cie.address_size word (joined (fde_pieces codes fde p))) back
              (fde_pieces-Entry codes fde p pos),
        ),
      )
