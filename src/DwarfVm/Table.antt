-- ===== src/DwarfVm/Table.antt =====
-- The dictionary of rules of src/dwarfvm.c is the hash table of src/util/dictionary.c.
use mathlib.Core.Path.{subst}
use kanana.Base.{
  arith, ◌≡◌, refl, sym, ap, ◌∙◌, ℕ, Option, none, some, List, [], ◌∷◌, map, inl, inr, Bool-cases,
  if◌then◌else◌,
}
use kanana.Dwarf.Register.{PoReg}
use kanana.Util.Hash.{hash1}
use kanana.Util.Map.{Node, Map, map_create, map_get, map_set, map_keys, item_of}
use kanana.Util.Map.Chain.{IsKey, assoc}
use kanana.Util.Map.Lookup.{IsMap, held, map_get-held}
use kanana.Util.Map.WellFormed.{map_create-IsMap}
use kanana.Util.Map.Overwrite.{map_set-IsMap}
use kanana.DwarfVm.Dictionary.{
  PoRegRule, RuleDict, same_reg, same_reg-eq, same_reg_refl, holds, is_some,
}

same_reg_comm : (a b : PoReg) → same_reg a b ≡ same_reg b a
same_reg_comm a b = elim (Bool-cases (same_reg a b)) [
  | inl e ↦ rw (same_reg-eq a b e) refl
  | inr e ↦ elim (Bool-cases (same_reg b a)) [
    | inl e' ↦ rw (same_reg-eq b a e') refl
    | inr e' ↦ e ∙ sym e'
  ]
]

-- The text of a register's string is printed by sprintf: any function of the register.
module _ (name : PoReg → List ℕ) where
  abbrev reg_hash : PoReg → ℕ
  reg_hash k = hash1 (name k)

  regs-IsKey : IsKey same_reg reg_hash
  regs-IsKey = (
    same_reg_refl,
    (λ k x y h h'. rw (sym (same_reg-eq k x h), sym (same_reg-eq k y h')) (same_reg_refl k)),
    (λ k k' h. ap reg_hash (same_reg-eq k k' h)),
  )

  -- The well-formed tables.
  abbrev pub Table : Type 0
  Table = (m : Map PoReg PoRegRule) × IsMap same_reg reg_hash m

  abbrev pub empty_table : Table
  empty_table =
      (map_create same_reg reg_hash 100, (map_create-IsMap same_reg reg_hash 100 (omega arith)).0)

  -- A lookup that reads freed memory finds nothing.
  abbrev found_rule : Option (Option PoRegRule) → Option PoRegRule
  found_rule none = none
  found_rule (some r) = r

  abbrev table_get : Table → PoReg → Option PoRegRule
  table_get (m, _) k = found_rule (map_get same_reg reg_hash m k)

  -- The table after a step that may fail.
  abbrev or_before : Map PoReg PoRegRule → Option (Map PoReg PoRegRule) → Map PoReg PoRegRule
  or_before m none = m
  or_before m (some m') = m'

  -- dictGet with an assignment to the rule that it finds, or dictInsert of one it does not find.
  abbrev set_map : Map PoReg PoRegRule → PoReg → PoRegRule → Map PoReg PoRegRule
  set_map m k r = or_before m (map_set same_reg reg_hash m k r)

  pub set_map-IsMap :
      (m : Map PoReg PoRegRule) (k : PoReg) (r : PoRegRule)
      → IsMap same_reg reg_hash m
      → IsMap same_reg reg_hash (set_map m k r)
        × ((k' : PoReg)
            → held same_reg reg_hash (set_map m k r) k'
              ≡ (if same_reg k' k then some r else held same_reg reg_hash m k'))
  set_map-IsMap m k r inv =
      let (m', run, inv', held_after) = map_set-IsMap same_reg reg_hash m k r regs-IsKey inv in
      let e = ap (or_before m) run in
      (
        subst (IsMap same_reg reg_hash) (sym e) inv',
        (λ k'. ap (λ m. held same_reg reg_hash m k') e ∙ held_after k'),
      )

  abbrev table_set : Table → PoReg → PoRegRule → Table
  table_set (m, inv) k r = (set_map m k r, (set_map-IsMap m k r inv).0)

  table_get-held : (d : Table) (k : PoReg) → table_get d k ≡ held same_reg reg_hash d.0 k
  table_get-held (m, inv) k = ap found_rule (map_get-held same_reg reg_hash regs-IsKey.2 m k inv).0

  pub table_get-set :
      (d : Table) (k k' : PoReg) (r : PoRegRule)
      → table_get (table_set d k r) k' ≡ (if same_reg k k' then some r else table_get d k')
  table_get-set (m, inv) k k' r =
      table_get-held (table_set (m, inv) k r) k'
      ∙ ((set_map-IsMap m k r inv).1 k' ∙ rw (same_reg_comm k' k, table_get-held (m, inv) k') refl)

  keys-assoc :
      (ns : List (Node PoReg PoRegRule)) (k : PoReg)
      → holds k (map (λ n. n.key) ns)
        ≡ is_some (item_of same_reg reg_hash (assoc same_reg reg_hash k ns))
  keys-assoc [] k = refl
  keys-assoc (n ∷ ns) k =
      let e = same_reg_comm k n.key in
      elim (Bool-cases (same_reg n.key k)) [
        | inl h ↦ rw (e, h) refl
        | inr h ↦ rw (e, h) (keys-assoc ns k)
      ]

  pub table_keys-get :
      (d : Table) (k : PoReg) → holds k (map_keys same_reg reg_hash d.0) ≡ is_some (table_get d k)
  unfolding map_keys
  table_keys-get d k = rw (table_get-held d k) (keys-assoc d.0.nodes k)

  abbrev pub table_dict : RuleDict Table
  table_dict = record {
    get = table_get;
    set = table_set;
    keys = λ d. map_keys same_reg reg_hash d.0;
    get-set = table_get-set;
    keys-get = table_keys-get;
  }
