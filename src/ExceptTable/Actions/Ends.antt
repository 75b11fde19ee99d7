-- ===== src/ExceptTable/Actions/Ends.antt =====
-- `readActionTable` of src/exceptTable.c ends: a chain of actions never goes on for more rounds than the
-- section has bytes, since each round reads an action at an offset where none was read.
use mathlib.Core.Path.{subst}
use kanana.Base.{
  ℕ, zero, suc, ◌+◌, ◌%◌, ◌^◌, ◌≤◌, ◌<◌, ◌≡◌, ◌≢◌, inl, inr, refl, arith, Option, none, some, List,
  [], ◌∷◌, ◌++◌, true, false, leb, ◌==◌, ==_iff, Bool-cases, Option-cases, length, drop,
}
use kanana.Base.Memory.{◌>>=◌}
use kanana.Leb.{decode_leb128, count_septets}
use kanana.Leb.Words.{leb128_to_uword}
use kanana.ExceptTable.{CallSiteRecord}
use kanana.Base.Outcome.{Outcome, done, fault, out_of_fuel, then_run, or_fault}
use kanana.ExceptTable.Actions.{
  Actions, index_of, read_action, add_action, read_chain, read_actions, read_action_table, set_next,
}

abbrev one_if_none : Option ℕ → ℕ
one_if_none none = 1
one_if_none (some i) = 0

-- How many offsets below a bound have no action yet.
abbrev unread : ℕ → List ℕ → ℕ
unread zero seen = 0
unread (suc n) seen = one_if_none (index_of n seen) + unread n seen

index_of-append_le :
    (b a : ℕ) (seen : List ℕ)
    → one_if_none (index_of b (seen ++ a ∷ [])) ≤ one_if_none (index_of b seen)
unfolding index_of
index_of-append_le b a [] = ground arith
index_of-append_le b a (c ∷ cs) = elim (Bool-cases (c == b)) [
  | inl e ↦ rw e (omega arith)
  | inr e ↦ rw e (later (index_of b (cs ++ a ∷ [])) (index_of b cs) (index_of-append_le b a cs))
]
  where
    later :
        (o o' : Option ℕ)
        → one_if_none o ≤ one_if_none o'
        → one_if_none (o >>= λ i. some (suc i)) ≤ one_if_none (o' >>= λ i. some (suc i))
    later none none h = omega arith
    later none (some i) h = absurd (omega arith)
    later (some i) none h = omega arith
    later (some i) (some j) h = omega arith

index_of-append_self : (a : ℕ) (seen : List ℕ) → one_if_none (index_of a (seen ++ a ∷ [])) ≡ 0
unfolding index_of
index_of-append_self a [] = ground arith
index_of-append_self a (c ∷ cs) = elim (Bool-cases (c == a)) [
  | inl e ↦ rw e refl
  | inr e ↦ rw e (later (index_of a (cs ++ a ∷ [])) (index_of-append_self a cs))
]
  where
    later : (o : Option ℕ) → one_if_none o ≡ 0 → one_if_none (o >>= λ i. some (suc i)) ≡ 0
    later none h = h
    later (some i) h = refl

unread-append_le : (n a : ℕ) (seen : List ℕ) → unread n (seen ++ a ∷ []) ≤ unread n seen
unread-append_le zero a seen = omega arith
unread-append_le (suc n) a seen =
    omega (arith, unread-append_le n a seen, index_of-append_le n a seen)

unread-append_lt :
    (n a : ℕ) (seen : List ℕ)
    → a < n
    → index_of a seen ≡ none
    → unread n (seen ++ a ∷ []) < unread n seen
unread-append_lt zero a seen h e = absurd (omega arith)
unread-append_lt (suc n) a seen h e = elim (Bool-cases (a == n)) [
  | inl same ↦
      let here : a ≡ n = (==_iff a n).0 same in
      rw (← here) (rw e (omega (arith, index_of-append_self a seen, unread-append_le a a seen)))
  | inr other ↦
      omega (arith, unread-append_lt n a seen (ground arith) e, index_of-append_le n a seen)
]

unread-le : (n : ℕ) (seen : List ℕ) → unread n seen ≤ n
unread-le zero seen = omega arith
unread-le (suc n) seen = omega (arith, unread-le n seen, at_most_one (index_of n seen))
  where
    at_most_one : (o : Option ℕ) → one_if_none o ≤ 1
    at_most_one none = omega arith
    at_most_one (some i) = omega arith

drop_past : (bytes : List ℕ) (n : ℕ) → length bytes ≤ n → drop n bytes ≡ []
drop_past [] zero h = refl
drop_past [] (suc n) h = refl
drop_past (b ∷ bs) zero h = absurd (omega arith)
drop_past (b ∷ bs) (suc n) h = drop_past bs n (omega arith)

no_word : leb128_to_uword [] ≡ none
unfolding leb128_to_uword decode_leb128 count_septets
no_word = refl

read_action-lt :
    (bytes : List ℕ) (offset : ℕ) (a : ℕ × ℕ × ℕ)
    → read_action bytes offset ≡ some a
    → offset < length bytes
unfolding read_action
read_action-lt bytes offset a h = elim (Bool-cases (leb (length bytes) offset)) [
  | inl past ↦ absurd (none_some (rw (drop_past bytes offset (ground arith), no_word) at h))
  | inr inside ↦ ground arith
]
  where
    none_some : none ≡ some a → ⊥
    none_some e = cc

-- The outcome is not that the fuel ran out, and no more offsets are unread than a bound.
abbrev Ends : {A : Type 0} → ℕ → ℕ → (A → Actions) → Outcome A → Type 0
Ends n bound actions (done a) = unread n (actions a).offsets ≤ bound
Ends n bound actions fault = Unit
Ends n bound actions out_of_fuel = ⊥

then_run-Ends :
    {A B : Type 0} (n bound bound' : ℕ) (r : Outcome A) (actions : A → Actions) (f : A → Outcome B)
    (actions' : B → Actions)
    → Ends n bound actions r
    → ((a : A) → unread n (actions a).offsets ≤ bound → Ends n bound' actions' (f a))
    → Ends n bound' actions' (then_run r f)
unfolding then_run or_fault
then_run-Ends n bound bound' (done a) actions f actions' h k = k a h
then_run-Ends n bound bound' fault actions f actions' h k = tt
then_run-Ends n bound bound' out_of_fuel actions f actions' h k = absurd h

abbrev actions_of : ℕ × Actions → Actions
actions_of (idx, s) = s

abbrev named : ℕ → ℕ × Actions → Outcome (ℕ × Actions)
named idx (i, s) = done (idx, s)

module _ (rounds : ℕ) (bytes : List ℕ) (offset : ℕ) (prev : Option ℕ) (s : Actions) where
  read_chain-found :
      (i : ℕ)
      → index_of offset s.offsets ≡ some i
      → (t : Actions) × (read_chain (suc rounds) bytes offset prev s ≡ done (i, t))
        × (t.offsets ≡ s.offsets)
  unfolding read_chain
  read_chain-found i e = (record s { table = set_next prev i s.table }, rw e refl, refl)

  read_chain-fault :
      index_of offset s.offsets ≡ none
      → read_action bytes offset ≡ none
      → read_chain (suc rounds) bytes offset prev s ≡ fault
  unfolding read_chain then_run or_fault
  read_chain-fault e e' = rw (e, e') refl

  read_chain-last :
      (a : ℕ × ℕ × ℕ)
      → index_of offset s.offsets ≡ none
      → read_action bytes offset ≡ some a
      → (a.1 == 0) ≡ true
      → read_chain (suc rounds) bytes offset prev s
        ≡ done (length s.table, add_action prev s offset a)
  unfolding read_chain then_run or_fault
  read_chain-last a e e' last = rw (e, e', last) refl

  read_chain-more :
      (a : ℕ × ℕ × ℕ)
      → index_of offset s.offsets ≡ none
      → read_action bytes offset ≡ some a
      → (a.1 == 0) ≡ false
      → read_chain (suc rounds) bytes offset prev s
        ≡ then_run
            (read_chain rounds bytes
              ((offset + a.1) % 2 ^ 64)
              (some (length s.table))
              (add_action prev s offset a))
            (named (length s.table))
  unfolding read_chain then_run or_fault
  read_chain-more a e e' more = rw (e, e', more) refl

add_action-offsets :
    (prev : Option ℕ) (s : Actions) (offset : ℕ) (a : ℕ × ℕ × ℕ)
    → (add_action prev s offset a).offsets ≡ s.offsets ++ offset ∷ []
unfolding add_action
add_action-offsets prev s offset a = refl

read_chain-Ends :
    (rounds : ℕ) (bytes : List ℕ) (offset : ℕ) (prev : Option ℕ) (s : Actions)
    → unread (length bytes) s.offsets < rounds
    → Ends
        (length bytes)
        (unread (length bytes) s.offsets)
        actions_of
        (read_chain rounds bytes offset prev s)
read_chain-Ends zero bytes offset prev s h = absurd (omega arith)
read_chain-Ends (suc rounds) bytes offset prev s h =
    let n = length bytes in
    let bound = unread n s.offsets in
    elim (Option-cases (index_of offset s.offsets)) [
      | inr (i, e) ↦
          let (t, run, kept) = read_chain-found rounds bytes offset prev s i e in
          rw run (rw kept (omega arith))
      | inl e ↦ elim (Option-cases (read_action bytes offset)) [
        | inl e' ↦ rw (read_chain-fault rounds bytes offset prev s e e') tt
        | inr (a, e') ↦
            let fewer = unread-append_lt n offset s.offsets (read_action-lt bytes offset a e') e in
            let less : unread n (add_action prev s offset a).offsets < bound =
              rw (add_action-offsets prev s offset a) fewer in
            elim (Bool-cases (a.1 == 0)) [
              | inl last ↦
                  rw (read_chain-last rounds bytes offset prev s a e e' last) (omega (arith, less))
              | inr more ↦ rw (read_chain-more rounds bytes offset prev s a e e' more) (
                  then_run-Ends n (unread n (add_action prev s offset a).offsets) bound _ actions_of
                    (named (length s.table)) actions_of
                    (read_chain-Ends rounds bytes ((offset + a.1) % 2 ^ 64) (some (length s.table))
                      (add_action prev s offset a) (omega (arith, less)))
                    (λ r h'. omega (arith, h', less)))
            ]
      ]
    ]

abbrev table_of : List CallSiteRecord × Actions → Actions
table_of (sites, s) = s

read_actions-Ends :
    (rounds : ℕ) (bytes : List ℕ) (sites : List CallSiteRecord) (s : Actions)
    → unread (length bytes) s.offsets < rounds
    → Ends
        (length bytes)
        (unread (length bytes) s.offsets)
        table_of
        (read_actions rounds bytes sites s)
unfolding read_actions
read_actions-Ends rounds bytes [] s h = omega arith
read_actions-Ends rounds bytes (site ∷ sites) s h =
    let n = length bytes in
    let bound = unread n s.offsets in
    elim (Bool-cases site.has_action) [
      | inl e ↦ rw e (
          then_run-Ends n bound bound (read_chain rounds bytes site.first_action none s) actions_of
            _ table_of (read_chain-Ends rounds bytes site.first_action none s h)
            λ r h'.
              then_run-Ends n (unread n (actions_of r).offsets) bound
                (read_actions rounds bytes sites (actions_of r)) table_of _ table_of
                (read_actions-Ends rounds bytes sites (actions_of r) (omega (arith, h')))
                (λ r' h''. omega (arith, h', h'')))
      | inr e ↦ rw e (
          then_run-Ends n bound bound (read_actions rounds bytes sites s) table_of _ table_of
            (read_actions-Ends rounds bytes sites s h) (λ r h'. h'))
    ]

-- `readActionTable` never runs out of fuel, whatever the bytes and the call sites: however the chains of
-- actions go on, back and in circles, no loop takes more rounds than the section has bytes.
pub read_action_table-ends :
    (bytes : List ℕ) (sites : List CallSiteRecord) → read_action_table bytes sites ≢ out_of_fuel
unfolding read_action_table
read_action_table-ends bytes sites e =
    subst (Ends (length bytes) (unread (length bytes) []) table_of) e (
      read_actions-Ends (suc (length bytes)) bytes sites _
        (omega (arith, unread-le (length bytes) [])))
