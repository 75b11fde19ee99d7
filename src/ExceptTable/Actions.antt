-- ===== src/ExceptTable/Actions.antt =====
-- `readActionTable` of src/exceptTable.c. A read outside the section is a fault; a chain of actions that is
-- followed for too long is out of fuel.
pub mod Ends
use kanana.Base.Outcome.{Outcome, done, fault, out_of_fuel, then_run, or_fault}
use kanana.Base.{
  ℕ, zero, suc, ◌+◌, ◌-◌, ◌*◌, ◌%◌, ◌^◌, Option, none, some, List, [], ◌∷◌, ◌++◌, Bool, true, false,
  not, leb, ltb, ◌==◌, if◌then◌else◌, length, get_elem?, set, drop,
}
use kanana.Base.Memory.{◌>>=◌}
use kanana.Leb.Words.{leb128_to_uword, leb128_to_sword}
use kanana.ExceptTable.{CallSiteRecord, ActionRecord}

abbrev if_found : {B : Type 0} → Option ℕ → (ℕ → B) → B → B
if_found none found otherwise = otherwise
if_found (some i) found otherwise = found i

-- The actions read, the offset of each, and the end of the furthest.
pub record Actions : Type 0 where
  pub table : List ActionRecord
  pub offsets : List ℕ
  pub highest : ℕ

-- The index of an action that is read already.
unfoldable pub index_of : ℕ → List ℕ → Option ℕ
index_of a [] = none
index_of a (b ∷ bs) =
    let later = index_of a bs >>= λ i. some (suc i) in if b == a then some 0 else later

abbrev pub match_all : ℕ
match_all = 2 ^ 32 - 1

-- The action at an offset: its type, the distance to the next or 0, and its size.
unfoldable pub read_action : List ℕ → ℕ → Option (ℕ × ℕ × ℕ)
read_action bytes offset = do
  (type, n) ← leb128_to_uword (drop offset bytes)
  (next, m) ← leb128_to_sword (drop (offset + n) bytes)
  some (type, if next == 0 then 0 else (next + n) % 2 ^ 64, n + m)

abbrev new_action : ℕ → ℕ → ActionRecord
new_action type next = record {
  type_filter_index = if type == 0 then match_all else (type - 1) % 2 ^ 32;
  next_action = 0;
  has_next_action = not (next == 0);
}

abbrev max : ℕ → ℕ → ℕ
max a b = if ltb a b then b else a

-- The action before, if there is one, goes on to this one.
abbrev set_next : Option ℕ → ℕ → List ActionRecord → List ActionRecord
set_next none idx table = table
set_next (some prev) idx table = elim (get_elem? table prev) [
  | none ↦ table
  | some action ↦ set table prev (record action { next_action = idx })
]

-- The action is new, and that before goes on to it.
unfoldable pub add_action : Option ℕ → Actions → ℕ → ℕ × ℕ × ℕ → Actions
add_action prev s offset (type, next, size) = record {
  table = set_next prev (length s.table) (s.table ++ new_action type next ∷ []);
  offsets = s.offsets ++ offset ∷ [];
  highest = max s.highest (offset + size);
}

-- The chain from an offset, behind an action; the index of its first action. The first argument bounds
-- the rounds.
unfoldable pub read_chain : ℕ → List ℕ → ℕ → Option ℕ → Actions → Outcome (ℕ × Actions)
read_chain zero bytes offset prev s = out_of_fuel
read_chain (suc rounds) bytes offset prev s =
    let fresh = or_fault (read_action bytes offset) λ a.
      let idx = length s.table in
      let s' = add_action prev s offset a in
      let onward =
        then_run (read_chain rounds bytes ((offset + a.1) % 2 ^ 64) (some idx) s')
          λ (_, s''). done (idx, s'') in
      if a.1 == 0 then done (idx, s') else onward in
    if_found (index_of offset s.offsets)
      (λ idx. done (idx, record s { table = set_next prev idx s.table })) fresh

-- The loop over the call sites.
unfoldable pub read_actions :
    ℕ → List ℕ → List CallSiteRecord → Actions → Outcome (List CallSiteRecord × Actions)
read_actions rounds bytes [] s = done ([], s)
read_actions rounds bytes (site ∷ sites) s =
    let with_action = then_run (read_chain rounds bytes site.first_action none s) λ (idx, s').
      then_run (read_actions rounds bytes sites s')
        λ (sites', s''). done (record site { first_action = idx } ∷ sites', s'') in
    let without =
      then_run (read_actions rounds bytes sites s) λ (sites', s'). done (site ∷ sites', s') in
    if site.has_action then with_action else without

abbrev no_actions : Actions
no_actions = record { table = []; offsets = []; highest = 0 }

-- There are as many rounds as there are bytes in the section, and one more.
unfoldable pub read_action_table :
    List ℕ → List CallSiteRecord → Outcome (List CallSiteRecord × Actions)
read_action_table bytes sites = read_actions (suc (length bytes)) bytes sites no_actions
