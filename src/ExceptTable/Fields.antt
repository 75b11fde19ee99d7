-- ===== src/ExceptTable/Fields.antt =====
-- The fields of a call site, as src/exceptTable.c writes and reads them.
use mathlib.Core.Path.{subst}
use mathlib.Core.List.{append-nil}
use kanana.Base.{
  ℕ, suc, ◌+◌, ◌-◌, ◌%◌, ◌^◌, ◌<◌, ◌≡◌, refl, sym, ap, ◌∙◌, arith, Option, some, List, [], ◌∷◌,
  ◌++◌, Bool, true, false, not, ◌==◌, if◌then◌else◌, length, get_elem?, get_or, drop, All,
  All-append,
}
use kanana.Base.Memory.{◌>>=◌, IsByte, get_elem?-some}
use kanana.Leb.{num_septets}
use kanana.Leb.Value.{uleb}
use kanana.Leb.Words.{leb128_to_uword}
use kanana.Leb.Words.Laws.{encode-le_bytes, leb128_to_uword-encode}
use kanana.Leb.RoundTrip.{uleb-IsByte}
use kanana.Dwarf.Expr.Reads.{drop-append}
use kanana.EhPe.{
  PeCodes, uleb128, direct, format, application, leb_bytes, read_format, unapplied,
  decode_eh_pointer,
}
use kanana.Util.GrowingBuffer.{
  GrowingBuffer, add_to_growing_buffer, add_uleb_to_growing_buffer, IsBuffer,
  add_to_growing_buffer-append,
}
use kanana.ExceptTable.{CallSiteRecord, write_action_of}
use kanana.ExceptTable.Read.{read_field, read_call_site}
use kanana.ExceptTable.Room.{uleb-pos}

-- Bytes added to a buffer.
abbrev pub Adds : (GrowingBuffer → Option GrowingBuffer) → List ℕ → Type 0
Adds write bytes =
    (buf : GrowingBuffer)
    → IsBuffer buf
    → (buf' : GrowingBuffer) × (write buf ≡ some buf')
      × (buf'.bytes ≡ buf.bytes ++ bytes)
      × IsBuffer buf'

drop-past : (xs : List ℕ) (n : ℕ) (ys : List ℕ) → drop (length xs + n) (xs ++ ys) ≡ drop n ys
drop-past [] n ys = ap (λ m. drop m ys) (omega arith)
drop-past (x ∷ xs) n ys =
    let e : suc (length xs) + n ≡ suc (length xs + n) = omega arith in
    ap (λ m. drop m (x ∷ (xs ++ ys))) e ∙ drop-past xs n ys

some-injective : {p q : List ℕ} → some p ≡ some q → p ≡ q
some-injective h = cc

pub uleb-Adds :
    (v : ℕ) → v < 2 ^ 64 → Adds (λ buf. add_uleb_to_growing_buffer buf v) (uleb (num_septets 8) v)
unfolding add_uleb_to_growing_buffer
uleb-Adds v h buf hb =
    let (enc, _) = encode-le_bytes 8 v (omega arith) h in
    rw enc (add_to_growing_buffer-append buf (uleb (num_septets 8) v) hb)

-- The number that is written for an action: one more than its offset, or zero.
abbrev pub action_number : List ℕ → CallSiteRecord → ℕ
action_number offsets site = if site.has_action then 1 + get_or offsets site.first_action 0 else 0

abbrev pub Fits : List ℕ → CallSiteRecord → Type 0
Fits offsets site =
    (site.position < 2 ^ 64)
    × (site.call_length < 2 ^ 64)
    × (site.landing_pad_position < 2 ^ 64)
    × (action_number offsets site < 2 ^ 64)
    × (site.has_action ≡ true → site.first_action < length offsets)

flagged-Adds :
    (offsets : List ℕ) (b : Bool) (first : ℕ)
    → (b ≡ true → first < length offsets)
    → (if b then 1 + get_or offsets first 0 else 0) < 2 ^ 64
    → Adds
        (λ buf.
          if b
          then (get_elem? offsets first >>= λ there. add_uleb_to_growing_buffer buf (1 + there))
          else add_to_growing_buffer buf (0 ∷ []))
        (uleb (num_septets 8) (if b then 1 + get_or offsets first 0 else 0))
flagged-Adds offsets true first inside small buf hb =
    rw (get_elem?-some offsets first 0 (inside refl))
      (uleb-Adds (1 + get_or offsets first 0) small buf hb)
flagged-Adds offsets false first inside small buf hb =
    let zero_byte : uleb (num_septets 8) 0 ≡ 0 ∷ [] = unfold uleb in refl in
    rw zero_byte (add_to_growing_buffer-append buf (0 ∷ []) hb)

pub action-Adds :
    (offsets : List ℕ) (site : CallSiteRecord)
    → Fits offsets site
    → Adds (write_action_of offsets site) (uleb (num_septets 8) (action_number offsets site))
unfolding write_action_of
action-Adds offsets site (_, _, _, small, inside) =
    flagged-Adds offsets site.has_action site.first_action inside small

-- The bytes of one call site.
abbrev pub site_bytes : List ℕ → CallSiteRecord → List ℕ
site_bytes offsets site =
    uleb (num_septets 8) site.position
    ++ (uleb (num_septets 8) site.call_length
        ++ (uleb (num_septets 8) site.landing_pad_position
            ++ uleb (num_septets 8) (action_number offsets site)))

-- What is read: the first action is still an offset, or -1.
abbrev pub as_read : List ℕ → CallSiteRecord → CallSiteRecord
as_read offsets site = record site {
  first_action = (action_number offsets site + 2 ^ 64 - 1) % 2 ^ 64;
  has_action = not (action_number offsets site == 0);
}

module _ (pe : PeCodes) (bitwidth : ℕ) (section_address call_site_format : ℕ)
    (is_uleb : format pe call_site_format ≡ uleb128)
    (is_direct : application pe call_site_format ≡ direct) where
  -- Bytes that are read as a number, whatever stands behind them.
  abbrev pub IsField : ℕ → List ℕ → Type 0
  IsField v bytes =
      All IsByte bytes
      × (0 < length bytes)
      × ((rest : List ℕ) (offset : ℕ)
          → All IsByte rest
          → read_field pe bitwidth section_address call_site_format (bytes ++ rest) offset
            ≡ some (v, length bytes))

  uleb-leb_bytes :
      (v : ℕ) (rest : List ℕ)
      → v < 2 ^ 64
      → All IsByte rest
      → leb_bytes (uleb (num_septets 8) v ++ rest) ≡ some (v, length (uleb (num_septets 8) v))
  unfolding leb_bytes leb128_to_uword
  uleb-leb_bytes v rest h hr =
      let (enc, wide) = encode-le_bytes 8 v (omega arith) h in
      let (written, enc', read) = leb128_to_uword-encode v rest h hr in
      let same : written ≡ uleb (num_septets 8) v = some-injective (sym enc' ∙ enc) in
      subst (λ bs. leb128_to_uword (bs ++ rest) ≡ some (v, length bs)) same read

  pub uleb-IsField : (v : ℕ) → v < 2 ^ 64 → IsField v (uleb (num_septets 8) v)
  unfolding read_field decode_eh_pointer read_format unapplied
  uleb-IsField v h =
      let (enc, wide) = encode-le_bytes 8 v (omega arith) h in
      (
        subst (All IsByte) (append-nil _) (uleb-IsByte (num_septets 8) v [] wide tt),
        uleb-pos (num_septets 8) v,
        λ rest offset hr. rw (is_uleb, is_direct, uleb-leb_bytes v rest h hr) refl,
      )

  pub read_call_site-lem :
      (p c l a : List ℕ) (vp vc vl va : ℕ) (rest : List ℕ) (offset : ℕ)
      → IsField vp p
      → IsField vc c
      → IsField vl l
      → IsField va a
      → All IsByte rest
      → read_call_site pe bitwidth section_address call_site_format
          (p ++ (c ++ (l ++ (a ++ rest))))
          offset
        ≡ some (
          record {
            position = vp;
            call_length = vc;
            landing_pad_position = vl;
            first_action = (va + 2 ^ 64 - 1) % 2 ^ 64;
            has_action = not (va == 0);
          },
          length p + length c + length l + length a,
        )
  unfolding read_call_site
  read_call_site-lem p c l a vp vc vl va rest offset (bp, _, rp) (bc, _, rc) (bl, _, rl) (ba, _, ra)
        hr =
      let h3 = All-append IsByte a rest ba hr in
      let h2 = All-append IsByte l (a ++ rest) bl h3 in
      let h1 = All-append IsByte c (l ++ (a ++ rest)) bc h2 in
      let d1 = drop-append p (c ++ (l ++ (a ++ rest))) in
      let d2 : drop (length p + length c) (p ++ (c ++ (l ++ (a ++ rest)))) ≡ l ++ (a ++ rest) =
        drop-past p (length c) _ ∙ drop-append c (l ++ (a ++ rest)) in
      let d3 : drop (length p + length c + length l) (p ++ (c ++ (l ++ (a ++ rest)))) ≡ a ++ rest =
        ap (λ n. drop n (p ++ (c ++ (l ++ (a ++ rest))))) (omega arith)
        ∙ (drop-past p (length c + length l) _
            ∙ (drop-past c (length l) _ ∙ drop-append l (a ++ rest))) in
      rw
        (
          rp (c ++ (l ++ (a ++ rest))) offset h1,
          d1,
          rc (l ++ (a ++ rest)) (offset + length p) h2,
          d2,
          rl (a ++ rest) (offset + length p + length c) h3,
          d3,
          ra rest (offset + length p + length c + length l) hr,
        )
        refl
