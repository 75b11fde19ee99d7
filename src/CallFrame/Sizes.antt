-- ===== src/CallFrame/Sizes.antt =====
-- The sizes that src/callFrameInfo.c writes into CIEs and FDEs are those of what follows them.
use kanana.Base.{
  ℕ, ◌+◌, ◌-◌, ◌%◌, ◌<◌, ◌≡◌, inl, inr, refl, sym, ap, ◌∙◌, arith, some, List, [], ◌∷◌, ◌++◌, ◌==◌,
  ==_iff, Bool-cases, if◌then◌else◌, length, length-append, length-replicate,
}
use native.Mathlib.Nat.{mod-lt, mod-add-mod, mod_self}
use mathlib.Core.List.{append_assoc, append-nil}
use kanana.Leb.Words.{le_bytes}
use kanana.Leb.Words.Laws.{length-le_bytes}
use kanana.Dwarf.Cfa.{CfaCodes, nop}
use kanana.Util.GrowingBuffer.{GrowingBuffer, IsBuffer, add_to_growing_buffer-append}
use kanana.CallFrame.{Cie, Fde, Section, padding_needed, padding, add_all}
use kanana.CallFrame.CieBytes.{CieParts, cie_length, cie_pieces}
use kanana.CallFrame.FdeBytes.{FdeParts, fde_length, fde_pieces}

pub padding_needed-mod : (size n : ℕ) → 0 < size → (n + padding_needed size n) % size ≡ 0
unfolding padding_needed
padding_needed-mod size n pos = elim (Bool-cases (n % size == 0)) [
  | inl e ↦ rw e (ap (λ (x : ℕ). x % size) (omega arith) ∙ (==_iff _ _).0 e)
  | inr e ↦ rw e (
      sym (mod-add-mod n size (size - n % size))
      ∙ (ap (λ (x : ℕ). x % size) (omega (arith, mod-lt n pos)) ∙ mod_self size))
]

abbrev pub joined : List (List ℕ) → List ℕ
joined [] = []
joined (piece ∷ pieces) = piece ++ joined pieces

abbrev pub total : List (List ℕ) → ℕ
total [] = 0
total (piece ∷ pieces) = length piece + total pieces

pub length-joined : (pieces : List (List ℕ)) → length (joined pieces) ≡ total pieces
length-joined [] = refl
length-joined (piece ∷ pieces) =
    length-append piece (joined pieces) ∙ ap (λ n. length piece + n) (length-joined pieces)

pub add_all-joined :
    (buf : GrowingBuffer) (pieces : List (List ℕ))
    → IsBuffer buf
    → (buf' : GrowingBuffer) × (add_all buf pieces ≡ some buf')
      × (buf'.bytes ≡ buf.bytes ++ joined pieces)
      × IsBuffer buf'
unfolding add_all
add_all-joined buf [] h = (buf, refl, sym (append-nil _), h)
add_all-joined buf (piece ∷ pieces) h =
    let (one, run, held, h') = add_to_growing_buffer-append buf piece h in
    let (buf', rest, held', h'') = add_all-joined one pieces h' in
    (buf', rw run rest, rw (held', held) (append_assoc buf.bytes piece (joined pieces)), h'')

-- An entry of the section: four bytes that say how many follow, which is a multiple of the address size, and
-- then a word that tells a CIE from an FDE.
abbrev pub Entry : ℕ → ℕ → List ℕ → Type 0
Entry size word bytes =
    (len : ℕ) × (body : List ℕ) × (bytes ≡ le_bytes 4 len ++ (le_bytes 4 word ++ body))
    × (length (le_bytes 4 word ++ body) ≡ len)
    × (len % size ≡ 0)

abbrev pub id_of : Section → ℕ
id_of cfi = if cfi.is_eh_frame then 0 else 0xffffffff

pub cie_pieces-Entry :
    (codes : CfaCodes) (cie : Cie) (cfi : Section) (p : CieParts)
    → 0 < cie.address_size
    → Entry cie.address_size (id_of cfi) (joined (cie_pieces codes cie cfi p))
unfolding cie_pieces
cie_pieces-Entry codes cie cfi p pos =
    let size = cie.address_size in
    let len = cie_length p in
    let pad = padding_needed size len in
    let id = id_of cfi in
    let tail =
      (p.string ++ 0 ∷ [])
      ∷ p.sizes
      ∷ p.code_align
      ∷ p.data_align
      ∷ p.return_addr_reg
      ∷ p.augmentation_length
      ∷ p.augmentation_data
      ∷ p.instrs
      ∷ padding codes size len
      ∷ [] in
    let version : List ℕ = cie.version % 256 ∷ [] in
    (
      len + pad,
      cie.version % 256 ∷ joined tail,
      append_assoc (le_bytes 4 (len + pad)) (le_bytes 4 id ++ version) (joined tail)
          ∙ ap (λ bs. le_bytes 4 (len + pad) ++ bs)
              (append_assoc (le_bytes 4 id) version (joined tail)),
      omega (
        arith,
        length-append (le_bytes 4 id) (cie.version % 256 ∷ joined tail),
        length-le_bytes 4 id,
        length-joined tail,
        length-append p.string (0 ∷ []),
        length-replicate pad (codes.code nop % 256),
      ),
      padding_needed-mod size len pos,
    )

pub fde_pieces-Entry :
    (codes : CfaCodes) (fde : Fde) (p : FdeParts)
    → 0 < fde.cie.address_size
    → Entry fde.cie.address_size p.cie_offset (joined (fde_pieces codes fde p))
unfolding fde_pieces
fde_pieces-Entry codes fde p pos =
    let size = fde.cie.address_size in
    let len = fde_length p in
    let pad = padding_needed size len in
    let tail =
      p.initial_location
      ∷ p.address_range
      ∷ p.augmentation_length
      ∷ p.augmentation_data
      ∷ p.instrs
      ∷ padding codes size len
      ∷ [] in
    (
      len + pad,
      joined tail,
      append_assoc (le_bytes 4 (len + pad)) (le_bytes 4 p.cie_offset) (joined tail),
      omega (
        arith,
        length-append (le_bytes 4 p.cie_offset) (joined tail),
        length-le_bytes 4 p.cie_offset,
        length-joined tail,
        length-replicate pad (codes.code nop % 256),
      ),
      padding_needed-mod size len pos,
    )
