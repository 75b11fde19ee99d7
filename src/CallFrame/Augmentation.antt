-- ===== src/CallFrame/Augmentation.antt =====
-- The augmentation data of CIEs and FDEs, as src/callFrameInfo.c parses it.
use kanana.Base.{
  ℕ, suc, ◌+◌, ◌-◌, ◌%◌, ◌^◌, Option, none, some, List, [], ◌∷◌, ◌++◌, true, not, ltb, ◌==◌,
  if◌then◌else◌, length, get_elem?, drop,
}
use kanana.Base.Memory.{◌>>=◌, ◌>>◌, assert}
use kanana.EhPe.{PeCodes, decode_eh_pointer, get_pointer_size_from_eh_pointer_encoding}
use kanana.CallFrame.{Cie, Fde}

-- The place of a pointer among some, if it is there.
unfoldable pub place_of : ℕ → List ℕ → Option ℕ
place_of p [] = none
place_of p (q ∷ qs) =
    let later = place_of p qs >>= λ i. some (suc i) in if p == q then some 0 else later

-- The FDE with the index of its pointer, which is added if it is new.
abbrev pub with_pointer : Fde → ℕ → List ℕ → Fde × List ℕ
with_pointer fde pointer lsda_pointers = elim (place_of pointer lsda_pointers) [
  | none ↦ (
    record fde { has_lsda_pointer = true; lsda_idx = length lsda_pointers },
    lsda_pointers ++ pointer ∷ [],
  )
  | some i ↦ (record fde { has_lsda_pointer = true; lsda_idx = i }, lsda_pointers)
]

module _ (pe : PeCodes) (bitwidth : ℕ) where
  -- `data` is what stands at the augmentation data and behind it, `len` the length it is said to have.
  module _ (augdata : List ℕ) (len address : ℕ) where
    unfoldable pub parse_personality : Cie → ℕ → Option (Cie × ℕ)
    parse_personality cie offset = do
      encoding ← get_elem? augdata offset
      (function, read) ←
          decode_eh_pointer pe bitwidth (drop (offset + 1) augdata) (len - (offset + 1))
            ((address + (offset + 1)) % 2 ^ 64) encoding
      some (
        record cie {
          personality = true;
          personality_pointer_encoding = encoding;
          personality_function = function;
        },
        offset + 1 + read,
      )

    unfoldable pub parse_fde_enc : Cie → ℕ → Option (Cie × ℕ)
    parse_fde_enc cie offset = do
      encoding ← get_elem? augdata offset
      some (record cie { fde_enc = true; fde_pointer_encoding = encoding }, offset + 1)

    unfoldable pub parse_fde_lsda : Cie → ℕ → Option (Cie × ℕ)
    parse_fde_lsda cie offset = do
      encoding ← get_elem? augdata offset
      some (record cie { fde_lsda = true; fde_lsda_pointer_encoding = encoding }, offset + 1)

    unfoldable pub parse_char : ℕ → Cie → ℕ → Option (Cie × ℕ)
    parse_char c cie offset =
        if c == b'z'
        then some (record cie { data_present = true }, offset)
        else if c == b'R'
        then parse_fde_enc cie offset
        else if c == b'P'
        then parse_personality cie offset
        else if c == b'L'
        then parse_fde_lsda cie offset
        else some (cie, offset)

    unfoldable pub parse_chars : List ℕ → Cie → ℕ → Option Cie
    parse_chars [] cie offset = some cie
    parse_chars (c ∷ string) cie offset = do
      assert (ltb offset len)
      (cie', offset') ← parse_char c cie offset
      parse_chars string cie' offset'

  unfoldable pub parse_augmentation_string_and_data : Cie → List ℕ → List ℕ → ℕ → ℕ → Option Cie
  parse_augmentation_string_and_data cie string augdata len address =
      parse_chars augdata len address string cie 0

  -- The FDE, and the pointers to LSDAs found so far.
  unfoldable pub parse_fde_augmentation_data : Fde → ℕ → List ℕ → ℕ → List ℕ → Option (Fde × List ℕ)
  parse_fde_augmentation_data fde address augdata len lsda_pointers = do
    let encoding = fde.cie.fde_lsda_pointer_encoding
    let parsed = do
      size ← get_pointer_size_from_eh_pointer_encoding pe bitwidth encoding
      assert (not (ltb len size))
      (pointer, _) ← decode_eh_pointer pe bitwidth augdata len address encoding
      some (with_pointer fde pointer lsda_pointers)
    if fde.cie.fde_lsda then parsed else some (fde, lsda_pointers)
