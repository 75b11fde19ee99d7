-- ===== src/ExceptTable/Chains.antt =====
-- The chains of actions that `buildExceptTableRawData` of src/exceptTable.c follows end.
use kanana.Base.{
  ℕ, zero, suc, ◌+◌, ◌%◌, ◌^◌, ◌<◌, ◌≤◌, ◌≡◌, inl, inr, refl, sym, ap, ◌∙◌, arith, Option, some,
  List, [], ◌∷◌, Bool, true, false, not, ◌==◌, ◌||◌, ==_iff, if◌then◌else◌, Bool-cases, length,
  length-append, length-set, get_elem?, get_or, set, All,
}
use kanana.Base.Memory.{◌>>=◌, store, get_elem?-some, store-some}
use kanana.Leb.{num_septets}
use kanana.Leb.Value.{uleb, le_value}
use kanana.Leb.Words.{le_bytes}
use kanana.Leb.Words.Laws.{length-le_bytes, le_bytes-IsByte}
use kanana.Leb.Trim.{encode_as_leb128-uleb}
use kanana.Leb.Total.{encode_as_leb128-signed_some}
use kanana.EhPe.{sub_addr}
use kanana.Dwarf.Cfa.Parse.{int_to_word}
use kanana.Util.GrowingBuffer.{
  GrowingBuffer, add_to_growing_buffer, add_uleb_to_growing_buffer, add_sleb_to_growing_buffer,
  IsBuffer, add_to_growing_buffer-append,
}
use kanana.ExceptTable.{ActionRecord, Written, end_chain, link_back, write_chain}
use kanana.ExceptTable.Room.{uleb-pos}

-- The buffer after bytes are added to it.
abbrev pub Grown : GrowingBuffer → Option GrowingBuffer → Type 0
Grown buf r =
    (buf' : GrowingBuffer) × (r ≡ some buf')
    × IsBuffer buf'
    × (length buf.bytes < length buf'.bytes)

add-Grown :
    (buf : GrowingBuffer) (bytes : List ℕ)
    → IsBuffer buf
    → 0 < length bytes
    → Grown buf (add_to_growing_buffer buf bytes)
add-Grown buf bytes h pos =
    let (buf', run, held, h') = add_to_growing_buffer-append buf bytes h in
    (buf', run, h', rw held (omega (arith, length-append buf.bytes bytes)))

pub add_uleb-Grown :
    (buf : GrowingBuffer) (v : ℕ) → IsBuffer buf → Grown buf (add_uleb_to_growing_buffer buf v)
unfolding add_uleb_to_growing_buffer
add_uleb-Grown buf v h =
    let bytes = le_bytes 8 v in
    let enc =
      encode_as_leb128-uleb bytes (le_bytes-IsByte 8 v) (omega (arith, length-le_bytes 8 v)) in
    rw enc (
      add-Grown buf (uleb (num_septets (length bytes)) (le_value bytes)) h
        (uleb-pos (num_septets (length bytes)) (le_value bytes)))

add_sleb-Grown :
    (buf : GrowingBuffer) (v : ℕ) → IsBuffer buf → Grown buf (add_sleb_to_growing_buffer buf v)
unfolding add_sleb_to_growing_buffer
add_sleb-Grown buf v h =
    let (written, enc, pos) =
      encode_as_leb128-signed_some (le_bytes 8 v) (le_bytes-IsByte 8 v)
        (omega (arith, length-le_bytes 8 v)) in
    rw enc (add-Grown buf written h pos)

-- How many offsets are not set.
abbrev pub unset : List ℕ → ℕ
unset [] = 0
unset (o ∷ os) = (if o == 0 then 1 else 0) + unset os

unset-set :
    (os : List ℕ) (i v : ℕ) → get_elem? os i ≡ some 0 → 0 < v → suc (unset (set os i v)) ≡ unset os
unset-set [] i v h pos = cc
unset-set (o ∷ os) zero v h pos = let zero_there : o ≡ 0 = some_eq h in ground arith
  where
    some_eq : some o ≡ some 0 → o ≡ 0
    some_eq e = cc
unset-set (o ∷ os) (suc i) v h pos = omega (arith, unset-set os i v h pos)

pub unset-le : (os : List ℕ) → unset os ≤ length os
unset-le [] = omega arith
unset-le (o ∷ os) = ground (arith, unset-le os)

-- Every action that has a next one has one of the table.
abbrev pub AllLinked : List ActionRecord → ℕ → Type 0
AllLinked table n = All (λ a. a.has_next_action ≡ true → a.next_action < n) table

pub get-Linked :
    (table : List ActionRecord) (n i : ℕ)
    → AllLinked table n
    → i < length table
    → (a : ActionRecord) × (get_elem? table i ≡ some a)
      × (a.has_next_action ≡ true → a.next_action < n)
get-Linked [] n i h lt = absurd (omega arith)
get-Linked (a ∷ as_) n zero (h, _) lt = (a, refl, h)
get-Linked (a ∷ as_) n (suc i) (_, hs) lt = get-Linked as_ n i hs (omega arith)

-- A result with as many offsets, the first of them as it was, and bytes in the buffer.
abbrev pub IsWritten : ℕ → ℕ → Option Written → Type 0
IsWritten o n r =
    (os : List ℕ) × (buf : GrowingBuffer) × (r ≡ some (record { offsets = o ∷ os; buf = buf }))
    × (length os ≡ n)
    × IsBuffer buf
    × (0 < length buf.bytes)

end_chain-IsWritten :
    (o : ℕ) (os : List ℕ) (buf : GrowingBuffer)
    → IsBuffer buf
    → IsWritten o (length os) (end_chain (o ∷ os) buf (0 ∷ []))
unfolding end_chain
end_chain-IsWritten o os buf h =
    let (buf', run, h', grown) = add-Grown buf (0 ∷ []) h (omega arith) in
    (os, buf', rw run refl, refl, h', omega (arith, grown))

link_back-IsWritten :
    (o : ℕ) (os : List ℕ) (buf : GrowingBuffer) (there : ℕ)
    → IsBuffer buf
    → IsWritten o (length os) (link_back (o ∷ os) buf there)
unfolding link_back
link_back-IsWritten o os buf there h =
    let (buf', run, h', grown) = add_sleb-Grown buf (sub_addr there (length buf.bytes)) h in
    (os, buf', rw run refl, refl, h', omega (arith, grown))

-- What is written behind the type index of an action, where there may be a next one.
abbrev pub after_index : ℕ → List ActionRecord → List ℕ → GrowingBuffer → Bool → ℕ → Option Written
after_index fuel table offsets buf has next =
    if has
    then (get_elem? offsets next >>= λ there.
        if not (there == 0) || next == 0
        then link_back offsets buf there
        else (add_to_growing_buffer buf (1 ∷ []) >>= λ buf'.
            write_chain fuel table next (record { offsets = offsets; buf = buf' })))
    else end_chain offsets buf (0 ∷ [])

pub write_chain-step :
    (fuel : ℕ) (table : List ActionRecord) (idx : ℕ) (w : Written) (offsets : List ℕ)
    (action : ActionRecord) (buf : GrowingBuffer)
    → store w.offsets idx (length w.buf.bytes) ≡ some offsets
    → get_elem? table idx ≡ some action
    → add_uleb_to_growing_buffer w.buf (int_to_word ((action.type_filter_index + 1) % 2 ^ 32))
      ≡ some buf
    → write_chain (suc fuel) table idx w
      ≡ after_index fuel table offsets buf action.has_next_action action.next_action
unfolding write_chain
write_chain-step fuel table idx w offsets action buf hs hg hb = rw (hs, hg, hb) refl

-- A chain from an action that is not written, and is not the first, ends with its fuel.
abbrev pub ChainsEnd : ℕ → List ActionRecord → ℕ → ℕ → Type 0
ChainsEnd fuel table o n =
    (i : ℕ) (os : List ℕ) (buf : GrowingBuffer)
    → length os ≡ n
    → get_elem? os i ≡ some 0
    → i < n
    → unset os < fuel
    → IsBuffer buf
    → 0 < length buf.bytes
    → IsWritten o n (write_chain fuel table (suc i) (record { offsets = o ∷ os; buf = buf }))

module _ (fuel : ℕ) (table : List ActionRecord) (o : ℕ) (os : List ℕ) (buf : GrowingBuffer)
    (held : IsBuffer buf) (enough : unset os < fuel)
    (ends : ChainsEnd fuel table o (length os)) where
  pub after_index-IsWritten :
      (has : Bool) (next : ℕ)
      → (has ≡ true → next < suc (length os))
      → IsWritten o (length os) (after_index fuel table (o ∷ os) buf has next)
  after_index-IsWritten false next linked = end_chain-IsWritten o os buf held
  after_index-IsWritten true zero linked = elim (Bool-cases (o == 0)) [
    | inl e ↦ rw e (link_back-IsWritten o os buf o held)
    | inr e ↦ rw e (link_back-IsWritten o os buf o held)
  ]
  after_index-IsWritten true (suc i) linked =
      let inside = linked refl in
      let there = get_or os i 0 in
      let at_i = get_elem?-some os i 0 (omega (arith, inside)) in
      let later : (suc i == 0) ≡ false = ground arith in
      elim (Bool-cases (there == 0)) [
        | inl e ↦
            let none_yet : get_elem? os i ≡ some 0 = at_i ∙ ap some ((==_iff _ _).0 e) in
            let (buf', run, held', grown) = add-Grown buf (1 ∷ []) held (omega arith) in
            let go =
              ends i os buf' refl none_yet (omega (arith, inside)) enough held'
                (omega (arith, grown)) in
            rw (at_i, e, later, run) go
        | inr e ↦ rw (at_i, e) (link_back-IsWritten o os buf there held)
      ]

pub chains_end :
    (fuel : ℕ) (table : List ActionRecord) (o n : ℕ)
    → length table ≡ suc n
    → AllLinked table (suc n)
    → ChainsEnd fuel table o n
chains_end zero table o n size linked i os buf len none_yet inside enough held pos =
    absurd (omega (arith, enough))
chains_end (suc fuel) table o n size linked i os buf len none_yet inside enough held pos =
    let here = length buf.bytes in
    let os' = set os i here in
    let (action, at_i, next) =
      get-Linked table (suc n) (suc i) linked (omega (arith, size, inside)) in
    let word = int_to_word ((action.type_filter_index + 1) % 2 ^ 32) in
    let (buf', run, held', grown) = add_uleb-Grown buf word held in
    let stored : store (o ∷ os) (suc i) here ≡ some (o ∷ os') =
      ap (λ r. r >>= λ ys. some (o ∷ ys)) (store-some os i here (omega (arith, len, inside))) in
    let len' = length-set os i here ∙ len in
    let step =
      write_chain-step fuel table (suc i) (record { offsets = o ∷ os; buf = buf }) (o ∷ os') action
        buf' stored at_i run in
    let fewer = unset-set os i here none_yet pos in
    rw (step, sym len')
      (after_index-IsWritten fuel table o os' buf' held' (omega (arith, fewer, enough))
        (rw len' (chains_end fuel table o n size linked)) action.has_next_action action.next_action
        (rw len' next))
