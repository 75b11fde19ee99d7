-- ===== src/ExceptTable/CallSites.antt =====
-- The call-site table that src/exceptTable.c writes is the one that it reads.
use mathlib.Core.List.{append_assoc, append-nil}
use kanana.Base.{
  ℕ, zero, suc, ◌+◌, ◌-◌, ◌^◌, ◌<◌, ◌≤◌, ◌≡◌, refl, sym, ap, ◌∙◌, arith, some, List, [], ◌∷◌, ◌++◌,
  map, true, false, leb, ◌==◌, length, length-append, All, All-append,
}
use kanana.Base.Memory.{IsByte}
use kanana.Leb.{num_septets}
use kanana.Leb.Value.{uleb}
use kanana.Dwarf.Expr.Reads.{drop-append}
use kanana.EhPe.{PeCodes, uleb128, direct, format, application}
use kanana.Util.GrowingBuffer.{GrowingBuffer, IsBuffer}
use kanana.ExceptTable.{CallSiteRecord, write_call_sites}
use kanana.ExceptTable.Read.{read_call_site, read_call_sites}
use kanana.ExceptTable.Room.{uleb-pos}
use kanana.ExceptTable.Fields.{
  Adds, uleb-IsField, uleb-Adds, action_number, Fits, action-Adds, site_bytes, as_read,
  read_call_site-lem,
}

five_pieces :
    (b p c l a rest one two three four five : List ℕ)
    → one ≡ b ++ p
    → two ≡ one ++ c
    → three ≡ two ++ l
    → four ≡ three ++ a
    → five ≡ four ++ rest
    → five ≡ b ++ ((p ++ (c ++ (l ++ a))) ++ rest)
five_pieces b p c l a rest one two three four five h1 h2 h3 h4 h5 =
    rw (h5, h4, h3, h2, h1) (simp append_assoc)

abbrev all_bytes : List ℕ → List CallSiteRecord → List ℕ
all_bytes offsets [] = []
all_bytes offsets (site ∷ sites) = site_bytes offsets site ++ all_bytes offsets sites

site-Adds :
    (offsets : List ℕ) (site : CallSiteRecord) (sites : List CallSiteRecord) (bytes : List ℕ)
    → Fits offsets site
    → Adds (write_call_sites offsets sites) bytes
    → Adds (write_call_sites offsets (site ∷ sites)) (site_bytes offsets site ++ bytes)
unfolding write_call_sites
site-Adds offsets site sites bytes (hp, hc, hl, small, inside) adds buf hb =
    let (one, run1, held1, h1) = uleb-Adds site.position hp buf hb in
    let (two, run2, held2, h2) = uleb-Adds site.call_length hc one h1 in
    let (three, run3, held3, h3) = uleb-Adds site.landing_pad_position hl two h2 in
    let (four, run4, held4, h4) = action-Adds offsets site (hp, hc, hl, small, inside) three h3 in
    let (five, run5, held5, h5) = adds four h4 in
    (
      five,
      rw (run1, run2, run3, run4) run5,
      five_pieces buf.bytes _ _ _ _ bytes _ _ _ _ _ held1 held2 held3 held4 held5,
      h5,
    )

sites-Adds :
    (offsets : List ℕ) (sites : List CallSiteRecord)
    → All (Fits offsets) sites
    → Adds (write_call_sites offsets sites) (all_bytes offsets sites)
sites-Adds offsets [] _ buf hb =
    (buf, unfold write_call_sites in refl, sym (append-nil buf.bytes), hb)
sites-Adds offsets (site ∷ sites) (h, hs) buf hb =
    site-Adds offsets site sites (all_bytes offsets sites) h (sites-Adds offsets sites hs) buf hb

module _ (pe : PeCodes) (bitwidth : ℕ) (section_address call_site_format : ℕ)
    (is_uleb : format pe call_site_format ≡ uleb128)
    (is_direct : application pe call_site_format ≡ direct) where
  all_bytes-IsByte :
      (offsets : List ℕ) (sites : List CallSiteRecord)
      → All (Fits offsets) sites
      → All IsByte (all_bytes offsets sites)
  all_bytes-IsByte offsets [] _ = tt
  all_bytes-IsByte offsets (site ∷ sites) ((hp, hc, hl, small, inside), hs) =
      let field = λ (v : ℕ) (h : v < 2 ^ 64).
        (uleb-IsField pe bitwidth section_address call_site_format is_uleb is_direct v h).0 in
      All-append IsByte _ _
        (All-append IsByte _ _ (field site.position hp) (
          All-append IsByte _ _ (field site.call_length hc) (
            All-append IsByte _ _ (field site.landing_pad_position hl)
              (field (action_number offsets site) small))))
        (all_bytes-IsByte offsets sites hs)

  site-read :
      (offsets : List ℕ) (site : CallSiteRecord) (rest : List ℕ) (offset : ℕ)
      → Fits offsets site
      → All IsByte rest
      → read_call_site pe bitwidth section_address call_site_format
          (site_bytes offsets site ++ rest)
          offset
        ≡ some (as_read offsets site, length (site_bytes offsets site))
  site-read offsets site rest offset (hp, hc, hl, small, inside) hr =
      let p = uleb (num_septets 8) site.position in
      let c = uleb (num_septets 8) site.call_length in
      let l = uleb (num_septets 8) site.landing_pad_position in
      let a = uleb (num_septets 8) (action_number offsets site) in
      let size : length p + length c + length l + length a ≡ length (p ++ (c ++ (l ++ a))) =
        omega
          (arith, length-append p (c ++ (l ++ a)), length-append c (l ++ a), length-append l a) in
      let pieces : (p ++ (c ++ (l ++ a))) ++ rest ≡ p ++ (c ++ (l ++ (a ++ rest))) =
        simp append_assoc in
      ap (λ bs. read_call_site pe bitwidth section_address call_site_format bs offset) pieces
      ∙ (read_call_site-lem pe bitwidth section_address call_site_format is_uleb is_direct p c l a
            site.position site.call_length site.landing_pad_position (action_number offsets site)
            rest offset
            (uleb-IsField pe bitwidth section_address call_site_format is_uleb is_direct
              site.position hp)
            (uleb-IsField pe bitwidth section_address call_site_format is_uleb is_direct
              site.call_length hc)
            (uleb-IsField pe bitwidth section_address call_site_format is_uleb is_direct
              site.landing_pad_position hl)
            (uleb-IsField pe bitwidth section_address call_site_format is_uleb is_direct
              (action_number offsets site) small)
            hr
          ∙ ap (λ n. some (as_read offsets site, n)) size)

  site-pos : (offsets : List ℕ) (site : CallSiteRecord) → 0 < length (site_bytes offsets site)
  site-pos offsets site =
      let p = uleb (num_septets 8) site.position in
      let behind =
        uleb (num_septets 8) site.call_length
        ++ (uleb (num_septets 8) site.landing_pad_position
            ++ uleb (num_septets 8) (action_number offsets site)) in
      omega (arith, length-append p behind, uleb-pos (num_septets 8) site.position)

  sites-read :
      (rounds : ℕ) (offsets : List ℕ) (sites : List CallSiteRecord) (rest : List ℕ) (offset : ℕ)
      → All (Fits offsets) sites
      → All IsByte rest
      → length (all_bytes offsets sites) ≤ rounds
      → read_call_sites pe bitwidth section_address call_site_format rounds
          (all_bytes offsets sites ++ rest)
          offset
          (length (all_bytes offsets sites))
        ≡ some (map (as_read offsets) sites, length (all_bytes offsets sites))
  unfolding read_call_sites
  sites-read zero offsets [] rest offset _ hr enough = refl
  sites-read (suc rounds) offsets [] rest offset _ hr enough = refl
  sites-read zero offsets (site ∷ sites) rest offset h hr enough = absurd (
      omega (
        arith,
        enough,
        site-pos offsets site,
        length-append (site_bytes offsets site) (all_bytes offsets sites),
      ))
  sites-read (suc rounds) offsets (site ∷ sites) rest offset (h, hs) hr enough =
      let own = site_bytes offsets site in
      let others = all_bytes offsets sites in
      let pos = site-pos offsets site in
      let size = length-append own others in
      let left : length (own ++ others) - length own ≡ length others = omega (arith, size) in
      let more : (length (own ++ others) == 0) ≡ false = ground (arith, size, pos) in
      let inside : leb (length own) (length (own ++ others)) ≡ true = ground (arith, size) in
      let first =
        site-read offsets site (others ++ rest) offset h
          (All-append IsByte others rest (all_bytes-IsByte offsets sites hs) hr) in
      rw
        (
          append_assoc own others rest,
          more,
          first,
          inside,
          drop-append own (others ++ rest),
          left,
          sites-read rounds offsets sites rest (offset + length own) hs hr
              (omega (arith, size, pos, enough)),
        )
        (ap (λ n. some (as_read offsets site ∷ map (as_read offsets) sites, n)) (sym size))

  -- Call sites whose fields are words, and whose first actions have offsets, are all written by
  -- `buildExceptTableRawData` and read back from what was written by `readCallSiteTable` in the
  -- unsigned LEB128 format, whatever follows: the fields are the same, and the first action is the
  -- offset of the action, or minus one where there is none.
  pub read_call_sites-write :
      (offsets : List ℕ) (sites : List CallSiteRecord) (buf : GrowingBuffer) (rest : List ℕ)
      (offset : ℕ)
      → All (Fits offsets) sites
      → IsBuffer buf
      → All IsByte rest
      → (buf' : GrowingBuffer) × (written : List ℕ) × (write_call_sites offsets sites buf
          ≡ some buf')
        × (buf'.bytes ≡ buf.bytes ++ written)
        × (read_call_sites pe bitwidth section_address call_site_format
              (length written)
              (written ++ rest)
              offset
              (length written)
            ≡ some (map (as_read offsets) sites, length written))
  read_call_sites-write offsets sites buf rest offset h hb hr =
      let (buf', run, held, _) = sites-Adds offsets sites h buf hb in
      (
        buf',
        all_bytes offsets sites,
        run,
        held,
        sites-read (length (all_bytes offsets sites)) offsets sites rest offset h hr (omega arith),
      )
