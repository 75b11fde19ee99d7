-- ===== src/CallFrame/Augmented.antt =====
-- The augmentation that `buildCIERawData` writes is what `parseAugmentationStringAndData` reads.
use mathlib.Core.Path.{subst}
use mathlib.Core.List.{append_assoc}
use kanana.Base.{
  ℕ, suc, ◌+◌, ◌-◌, ◌%◌, ◌^◌, ◌/◌, ◌<◌, ◌≤◌, ◌≡◌, refl, sym, ap, ◌∙◌, inl, inr, arith, Option, some,
  List, [], ◌∷◌, ◌++◌, Bool, true, false, ltb, ◌==◌, ◌||◌, if◌then◌else◌, Bool-cases, length,
  length-append, get_elem?,
}
use kanana.Base.Memory.{◌>>=◌}
use kanana.Leb.Words.{le_bytes}
use kanana.Leb.Words.Laws.{length-le_bytes}
use kanana.EhPe.{PeCodes, Format, format, application, applied, format_size}
use kanana.EhPe.Laws.{decode_eh_pointer-encode, reported}
use kanana.CallFrame.{Cie, flagged, augmentation_string}
use kanana.CallFrame.CieBytes.{personality_bytes, cie_augmentation_data}
use kanana.CallFrame.Augmentation.{
  parse_personality, parse_fde_enc, parse_fde_lsda, parse_char, parse_chars,
  parse_augmentation_string_and_data,
}

-- What the augmentation of a CIE makes of another.
abbrev with_lsda : Bool → ℕ → Cie → Cie
with_lsda b encoding base =
    if b then record base { fde_lsda = true; fde_lsda_pointer_encoding = encoding } else base

abbrev with_enc : Bool → ℕ → Cie → Cie
with_enc b encoding base =
    if b then record base { fde_enc = true; fde_pointer_encoding = encoding } else base

abbrev with_personality : Bool → ℕ → ℕ → Cie → Cie
with_personality b encoding function base =
    if b
    then record base {
      personality = true;
      personality_pointer_encoding = encoding;
      personality_function = function;
    }
    else base

abbrev pub augmented : Cie → Cie → Cie
augmented cie base = with_enc cie.fde_enc cie.fde_pointer_encoding (
    with_lsda cie.fde_lsda cie.fde_lsda_pointer_encoding (
      with_personality cie.personality cie.personality_pointer_encoding cie.personality_function
        (record base { data_present = true })))

get_elem?-append :
    (pre : List ℕ) (x : ℕ) (post : List ℕ) → get_elem? (pre ++ x ∷ post) (length pre) ≡ some x
get_elem?-append [] x post = refl
get_elem?-append (y ∷ pre) x post = get_elem?-append pre x post

get_elem?-second :
    (pre : List ℕ) (y x : ℕ) (post : List ℕ)
    → get_elem? (pre ++ y ∷ x ∷ post) (length pre + 1) ≡ some x
get_elem?-second [] y x post = refl
get_elem?-second (z ∷ pre) y x post =
    let e : suc (length pre + 1) ≡ suc (length pre) + 1 = omega arith in
    sym (ap (get_elem? (z ∷ (pre ++ y ∷ x ∷ post))) e) ∙ get_elem?-second pre y x post

guarded :
    (b : Bool) (m : Option (List ℕ)) (bytes : List ℕ)
    → (b ≡ true → m ≡ some bytes)
    → (if b then m else some []) ≡ some (flagged b bytes)
guarded true m bytes h = h refl
guarded false m bytes h = refl

flagged-true : (b : Bool) (bytes : List ℕ) → b ≡ true → flagged b bytes ≡ bytes
flagged-true b bytes e = rw e refl

augdata-pos :
    (p l r : Bool) (el er : ℕ) (bytes : List ℕ)
    → 0 < length bytes
    → (p || (l || r)) ≡ true
    → 0 < length (flagged p bytes ++ (flagged l (el ∷ []) ++ flagged r (er ∷ [])))
augdata-pos true l r el er bytes pos _ =
    let size = length-append bytes (flagged l (el ∷ []) ++ flagged r (er ∷ [])) in
    omega (arith, pos, size)
augdata-pos false true r el er bytes _ _ = omega arith
augdata-pos false false true el er bytes _ _ = omega arith
augdata-pos false false false el er bytes _ unset = absurd cc

module _ (pe : PeCodes) (bitwidth : ℕ) where
  module _ (pre rest : List ℕ) (el er address : ℕ) where
    -- The encodings of the pointers, behind the personality.
    parse_encodings :
        (l r : Bool) (base : Cie)
        → parse_chars pe bitwidth
            (pre ++ ((flagged l (el ∷ []) ++ flagged r (er ∷ [])) ++ rest))
            (length pre + length (flagged l (el ∷ []) ++ flagged r (er ∷ [])))
            address
            (flagged l (b'L' ∷ []) ++ flagged r (b'R' ∷ []))
            base
            (length pre)
          ≡ some (with_enc r er (with_lsda l el base))
    unfolding parse_chars parse_char parse_fde_lsda parse_fde_enc
    parse_encodings false false base = refl
    parse_encodings true false base =
        let inside : ltb (length pre) (length pre + 1) ≡ true = ground arith in
        rw (inside, get_elem?-append pre el rest) refl
    parse_encodings false true base =
        let inside : ltb (length pre) (length pre + 1) ≡ true = ground arith in
        rw (inside, get_elem?-append pre er rest) refl
    parse_encodings true true base =
        let inside : ltb (length pre) (length pre + 2) ≡ true = ground arith in
        let inside' : ltb (length pre + 1) (length pre + 2) ≡ true = ground arith in
        rw (inside, get_elem?-append pre el (er ∷ rest), inside', get_elem?-second pre el er rest)
          refl

  -- A personality in four bytes or fewer that fits its format, at its place.
  abbrev pub Encodes : ℕ → ℕ → ℕ → Type 0
  Encodes function encoding location =
      (size : ℕ) × (code : ℕ) × (function < 2 ^ 32)
      × ((encoding == pe.omit) ≡ false)
      × (format_size bitwidth (format pe encoding) ≡ some size)
      × (applied (application pe encoding) function location ≡ some code)
      × (code < 256 ^ size)
      × (reported (format pe encoding) size ≡ size)

  module _ (hb : bitwidth ≤ 64) (number : Format → ℕ) (stale : List ℕ) (address : ℕ) where
    -- One byte behind the start of the data.
    abbrev pub location : ℕ
    location = (address + 1) % 2 ^ 64

    -- What is written, and how it is read in front of whatever follows.
    personality-read :
        (cie base : Cie)
        → Encodes cie.personality_function cie.personality_pointer_encoding location
        → (bytes : List ℕ) × (personality_bytes pe bitwidth number stale cie location ≡ some bytes)
          × (0 < length bytes)
          × ((tail : List ℕ) (more : ℕ)
              → parse_personality pe bitwidth (bytes ++ tail) (length bytes + more) address base 0
                ≡ some (
                  with_personality true cie.personality_pointer_encoding cie.personality_function
                      base,
                  length bytes,
                ))
    unfolding personality_bytes parse_personality
    personality-read cie base (size, code, short, some_size, hs, ha, fits, same) =
        let encoding = cie.personality_pointer_encoding in
        let function = cie.personality_function in
        let low : (function / 2 ^ 32 == 0) ≡ true = ground (arith, short) in
        let laws = λ (len : ℕ) (rest : List ℕ) (enough : size ≤ len).
          decode_eh_pointer-encode pe bitwidth function encoding location size code len rest hb
            (omega (arith, short)) (omega arith) some_size hs ha fits enough in
        let encoded = (laws size [] (omega arith)).0 in
        (
          encoding ∷ le_bytes size code,
          rw (low, encoded) refl,
          omega arith,
          λ tail more.
              let len = suc (length (le_bytes size code)) + more - (0 + 1) in
              let read = (laws len tail (omega (arith, length-le_bytes size code))).1 in
              rw (read, same)
                (ap (λ n. some (with_personality true encoding function base, n))
                  (omega (arith, length-le_bytes size code))),
        )

    parse_chars-augmentation :
        (p l r : Bool) (el er ep function : ℕ) (base : Cie) (bytes tail : List ℕ)
        → 0 < length bytes
        → (p ≡ true
            → (more : ℕ) (rest : List ℕ)
            → parse_personality pe bitwidth (bytes ++ rest) (length bytes + more) address base 0
              ≡ some (with_personality true ep function base, length bytes))
        → 0 < length (flagged p bytes ++ (flagged l (el ∷ []) ++ flagged r (er ∷ [])))
        → parse_chars pe bitwidth
            ((flagged p bytes ++ (flagged l (el ∷ []) ++ flagged r (er ∷ []))) ++ tail)
            (length (flagged p bytes ++ (flagged l (el ∷ []) ++ flagged r (er ∷ []))))
            address
            (flagged p (b'P' ∷ []) ++ (flagged l (b'L' ∷ []) ++ flagged r (b'R' ∷ [])))
            base
            0
          ≡ some (with_enc r er (with_lsda l el (with_personality p ep function base)))
    parse_chars-augmentation false l r el er ep function base bytes tail _ _ _ =
        let encodings = flagged l (el ∷ []) ++ flagged r (er ∷ []) in
        let string = flagged l (b'L' ∷ []) ++ flagged r (b'R' ∷ []) in
        let size : 0 + length encodings ≡ length encodings = omega arith in
        subst
          (λ n.
            parse_chars pe bitwidth (encodings ++ tail) n address string base 0
            ≡ some (with_enc r er (with_lsda l el base)))
          size (parse_encodings [] tail el er address l r base)
    parse_chars-augmentation true l r el er ep function base bytes tail pos reads _ =
        let encodings = flagged l (el ∷ []) ++ flagged r (er ∷ []) in
        let string = flagged l (b'L' ∷ []) ++ flagged r (b'R' ∷ []) in
        let whole = append_assoc bytes encodings tail in
        let size = length-append bytes encodings in
        let inside : ltb 0 (length bytes + length encodings) ≡ true = ground (arith, pos) in
        let first : parse_chars pe bitwidth (bytes ++ (encodings ++ tail))
              (length bytes + length encodings) address (b'P' ∷ string) base 0
            ≡ parse_chars pe bitwidth (bytes ++ (encodings ++ tail))
                (length bytes + length encodings) address string
                (with_personality true ep function base) (length bytes) =
          unfold parse_chars parse_char in
          rw (inside, reads refl (length encodings) (encodings ++ tail)) refl in
        rw (whole, size)
          (first
            ∙ parse_encodings bytes tail el er address l r (with_personality true ep function base))

    -- The augmentation data that is written for a CIE.
    augmentation-written :
        (cie base : Cie)
        → (cie.personality ≡ true
            → Encodes cie.personality_function cie.personality_pointer_encoding location)
        → (bytes : List ℕ) × (0 < length bytes)
          × (cie_augmentation_data pe bitwidth number stale cie location
              ≡ some (
                  flagged cie.personality bytes
                  ++ (flagged cie.fde_lsda (cie.fde_lsda_pointer_encoding ∷ [])
                      ++ flagged cie.fde_enc (cie.fde_pointer_encoding ∷ []))))
          × (cie.personality ≡ true
              → (more : ℕ) (rest : List ℕ)
              → parse_personality pe bitwidth (bytes ++ rest) (length bytes + more) address base 0
                ≡ some (
                  with_personality true cie.personality_pointer_encoding cie.personality_function
                      base,
                  length bytes,
                ))
    unfolding cie_augmentation_data
    augmentation-written cie base encodes =
        let encodings =
          flagged cie.fde_lsda (cie.fde_lsda_pointer_encoding ∷ [])
          ++ flagged cie.fde_enc (cie.fde_pointer_encoding ∷ []) in
        let written =
          λ (bytes : List ℕ)
              (made : cie.personality ≡ true
                → personality_bytes pe bitwidth number stale cie location ≡ some bytes).
            ap (λ o. o >>= λ function. some (function ++ encodings))
              (guarded cie.personality _ bytes made) in
        elim (Bool-cases cie.personality) [
          | inl e ↦
              let (bytes, made, pos, reads) = personality-read cie base (encodes e) in
              (bytes, pos, written bytes (λ _. made), λ _ more rest. reads rest more)
          | inr e ↦ (0 ∷ [], omega arith, written (0 ∷ []) (λ e'. absurd cc), λ e'. absurd cc)
        ]

    pub parse_augmentation-cie :
        (cie base : Cie) (rest : List ℕ)
        → cie.data_present ≡ true
        → (cie.personality || (cie.fde_lsda || cie.fde_enc)) ≡ true
        → (cie.personality ≡ true
            → Encodes cie.personality_function cie.personality_pointer_encoding location)
        → (bytes : List ℕ) × (cie_augmentation_data pe bitwidth number stale cie location
            ≡ some bytes)
          × (parse_augmentation_string_and_data pe bitwidth base
                (augmentation_string cie)
                (bytes ++ rest)
                (length bytes)
                address
              ≡ some (augmented cie base))
    unfolding parse_augmentation_string_and_data augmentation_string
    parse_augmentation-cie cie base rest present flags encodes =
        let base' : Cie = record base { data_present = true } in
        let (bytes, pos, made, reads) = augmentation-written cie base' encodes in
        let encodings =
          flagged cie.fde_lsda (cie.fde_lsda_pointer_encoding ∷ [])
          ++ flagged cie.fde_enc (cie.fde_pointer_encoding ∷ []) in
        let augdata = flagged cie.personality bytes ++ encodings in
        let string =
          flagged cie.personality (b'P' ∷ [])
          ++ (flagged cie.fde_lsda (b'L' ∷ []) ++ flagged cie.fde_enc (b'R' ∷ [])) in
        let some_bytes =
          augdata-pos cie.personality cie.fde_lsda cie.fde_enc cie.fde_lsda_pointer_encoding
            cie.fde_pointer_encoding bytes pos flags in
        let inside : ltb 0 (length augdata) ≡ true = ground (arith, some_bytes) in
        let first : parse_chars pe bitwidth (augdata ++ rest) (length augdata) address
              (b'z' ∷ string) base 0
            ≡ parse_chars pe bitwidth (augdata ++ rest) (length augdata) address string base' 0 =
          unfold parse_chars parse_char in rw inside refl in
        (
          augdata,
          made,
          (ap (λ s. parse_chars pe bitwidth (augdata ++ rest) (length augdata) address s base 0)
                (flagged-true cie.data_present (b'z' ∷ string) present)
              ∙ first
              ∙ parse_chars-augmentation cie.personality cie.fde_lsda cie.fde_enc
                  cie.fde_lsda_pointer_encoding cie.fde_pointer_encoding
                  cie.personality_pointer_encoding cie.personality_function base' bytes rest pos
                  reads some_bytes),
        )
