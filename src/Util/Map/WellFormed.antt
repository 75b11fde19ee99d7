-- ===== src/Util/Map/WellFormed.antt =====
-- `mapInsert` of src/util/map.c keeps a map well formed and adds its key.
use kanana.Base.{
  ℕ, zero, suc, ◌+◌, ◌<◌, ◌%◌, ◌≡◌, ◌≢◌, inl, inr, refl, sym, ap, ◌∙◌, arith, Option, none, some,
  List, [], ◌∷◌, ◌++◌, Bool, true, false, ◌==◌, ==_iff, Bool-cases, Option-cases, if◌then◌else◌,
  All, length, length-set, get_elem?, set, replicate, length-replicate,
}
use kanana.Base.Memory.{store-some}
use kanana.Util.Map.{Node, Map, map_create, map_insert, map_exists, link, item_of, found}
use kanana.Util.Map.Chain.{
  Absent, IsChain, Distinct, first, first-Absent, IsKey, RespectsHash, assoc, clash,
}
use kanana.Util.Map.Lookup.{IsMap, held, map_get-held, bucket_of-some}
use kanana.Util.Map.Insert.{
  or_new, Fresh, IsEuclidean, Inserted, insert_from-Inserted, last-Inserted, first-last,
  first-last_new,
}

pub get_elem?-set_same :
    {A : Type 0} (xs : List A) (i : ℕ) (v : A) → i < length xs → get_elem? (set xs i v) i ≡ some v
get_elem?-set_same [] i v h = absurd (omega arith)
get_elem?-set_same (x ∷ xs) zero v h = refl
get_elem?-set_same (x ∷ xs) (suc i) v h = get_elem?-set_same xs i v (omega arith)

pub get_elem?-set_other :
    {A : Type 0} (xs : List A) (i j : ℕ) (v : A) → j ≢ i → get_elem? (set xs i v) j ≡ get_elem? xs j
get_elem?-set_other [] i j v h = refl
get_elem?-set_other (x ∷ xs) zero zero v h = absurd (h refl)
get_elem?-set_other (x ∷ xs) zero (suc j) v h = refl
get_elem?-set_other (x ∷ xs) (suc i) zero v h = refl
get_elem?-set_other (x ∷ xs) (suc i) (suc j) v h = get_elem?-set_other xs i j v (λ e. h (ap suc e))

pub get_elem?-replicate :
    {A : Type 0} (count b : ℕ) (a : A)
    → b < length (replicate count a)
    → get_elem? (replicate count a) b ≡ some a
get_elem?-replicate zero b a h = absurd (omega arith)
get_elem?-replicate (suc count) zero a h = refl
get_elem?-replicate (suc count) (suc b) a h = get_elem?-replicate count b a (omega arith)

module _ {ℓ} {K V : Type ℓ} (same : K → K → Bool) (hash : K → ℕ) where
  -- The pointers of the buckets.
  abbrev Heads : List (Option ℕ) → List (Node K V) → Type 0
  Heads heads ns = (b : ℕ) → b < length heads → get_elem? heads b ≡ some (first b ns)

  set-Heads :
      (new : Node K V) (m : Map K V)
      → Heads m.heads m.nodes
      → Absent new.bucket m.nodes
      → new.bucket < length m.heads
      → Heads (set m.heads new.bucket (some new.addr)) (m.nodes ++ new ∷ [])
  set-Heads new m heads absent hb b h = elim (Bool-cases (b == new.bucket)) [
    | inl e ↦
        let here : b ≡ new.bucket = (==_iff _ _).0 e in
        rw here (
          get_elem?-set_same m.heads new.bucket (some new.addr) hb
          ∙ ap some (sym (first-last_new same hash new m.nodes absent)))
    | inr e ↦
        let other : b ≢ new.bucket = λ e'. clash e ((==_iff _ _).1 e') in
        let h' : b < length m.heads = rw (length-set m.heads new.bucket (some new.addr)) at h in
        get_elem?-set_other m.heads new.bucket b (some new.addr) other
        ∙ (heads b h' ∙ ap some (sym (first-last same hash new b m.nodes other)))
  ]

  link-Inserted :
      (new : Node K V) (m : Map K V)
      → IsEuclidean same hash new
      → Heads m.heads m.nodes
      → new.bucket < length m.heads
      → Fresh same hash new m.nodes
      → IsChain m.nodes
      → Distinct m.nodes
      → (heads : List (Option ℕ)) × (ns : List (Node K V)) × (link same hash
            (first new.bucket m.nodes)
            new
            m
          ≡ some (record m { heads = heads; nodes = ns }))
        × (length heads ≡ length m.heads)
        × Heads heads ns
        × Inserted same hash new m.nodes ns
  unfolding link
  link-Inserted new m euclid heads hb fresh chain distinct =
      elim (Option-cases (first new.bucket m.nodes)) [
        | inl e ↦
            let absent = first-Absent _ m.nodes e in
            (
              set m.heads new.bucket (some new.addr),
              m.nodes ++ new ∷ [],
              rw (e, store-some m.heads new.bucket (some new.addr) hb) refl,
              length-set m.heads new.bucket (some new.addr),
              set-Heads new m heads absent hb,
              last-Inserted same hash new euclid m.nodes absent fresh chain distinct,
            )
        | inr (a, e) ↦
            let (ns, run, _, firsts, inserted) =
              insert_from-Inserted same hash new euclid a m.nodes e fresh chain distinct in
            (
              m.heads,
              ns,
              rw (e, run) refl,
              refl,
              (λ b h. heads b h ∙ ap some (sym (firsts b))),
              inserted,
            )
      ]

  -- No node has a key.
  abbrev Missing : K → List (Node K V) → Type 0
  Missing k = All (λ n. same k n.key ≡ false)

  assoc-Missing : (k : K) (ns : List (Node K V)) → assoc same hash k ns ≡ none → Missing k ns
  assoc-Missing k [] _ = tt
  assoc-Missing k (n ∷ ns) h = elim (Bool-cases (same k n.key)) [
    | inl e ↦ absurd (some-none (rw e at h))
    | inr e ↦ (e, assoc-Missing k ns (rw e at h))
  ]
    where
      some-none : {n : Node K V} → some n ≡ none → ⊥
      some-none h = cc

  Missing-assoc :
      IsKey same hash
      → (k k' : K) (ns : List (Node K V)) → Missing k ns
      → same k' k ≡ true
      → assoc same hash k' ns ≡ none
  Missing-assoc key k k' [] _ _ = refl
  Missing-assoc key k k' (n ∷ ns) (h, hs) e = elim (Bool-cases (same k' n.key)) [
    | inl e' ↦ absurd (clash h (key.1 k' k n.key e e'))
    | inr e' ↦ rw e' (Missing-assoc key k k' ns hs e)
  ]

  Missing-Fresh :
      IsKey same hash
      → (new : Node K V) (count : ℕ) (ns : List (Node K V)) → new.addr ≡ count
      → All (λ n. n.addr < count) ns
      → Missing new.key ns
      → Fresh same hash new ns
  Missing-Fresh key new count [] _ _ _ = tt
  Missing-Fresh key new count (n ∷ ns) e (h, hs) (h', hs') = (
    ((λ same_addr. omega (arith, e, h, same_addr)), differs (same n.key new.key) refl),
    Missing-Fresh key new count ns e hs hs',
  )
    where
      differs : (b : Bool) → same n.key new.key ≡ b → same n.key new.key ≡ false
      differs true e' = absurd (clash h' (key.1 n.key new.key n.key e' (key.0 n.key)))
      differs false e' = e'

  All-weaken :
      (c : ℕ) (ns : List (Node K V)) → All (λ n. n.addr < c) ns → All (λ n. n.addr < c + 1) ns
  All-weaken c [] _ = tt
  All-weaken c (n ∷ ns) (h, hs) = (omega (arith, h), All-weaken c ns hs)

  -- What a key has in the map with a new node.
  held-new :
      IsKey same hash
      → (k' : K) (new : Node K V) (ns : List (Node K V)) → Missing new.key ns
      → item_of same hash (or_new same hash new k' (assoc same hash k' ns))
        ≡ (if same k' new.key then some new.item else item_of same hash (assoc same hash k' ns))
  held-new key k' new ns missing = elim (Bool-cases (same k' new.key)) [
    | inl e ↦ rw (Missing-assoc key new.key k' ns missing e, e) refl
    | inr e ↦ rw e (other e (assoc same hash k' ns))
  ]
    where
      other :
          same k' new.key ≡ false
          → (o : Option (Node K V))
          → item_of same hash (or_new same hash new k' o) ≡ item_of same hash o
      other e none = rw e refl
      other e (some n) = refl

  abbrev node_for : Map K V → K → V → Node K V
  node_for m k v = record { addr = m.fresh; key = k; item = v; bucket = hash k % length m.heads }

  map_insert-link :
      (m : Map K V) (k : K) (v : V) (heads : List (Option ℕ)) (ns : List (Node K V))
      → RespectsHash same hash
      → IsMap same hash m
      → assoc same hash k m.nodes ≡ none
      → link same hash (first (hash k % length m.heads) m.nodes) (node_for m k v) m
        ≡ some (record m { heads = heads; nodes = ns })
      → map_insert same hash m k v
        ≡ some (record { heads = heads; nodes = ns; size = m.size + 1; fresh = m.fresh + 1 })
  unfolding map_insert
  map_insert-link m k v heads ns agree inv absent run =
      let (pos, pointers, _, _, _, _, _) = inv in
      let there : map_exists same hash m k ≡ some false =
        (map_get-held same hash agree m k inv).1 ∙ ap (λ o. some (found same hash o)) absent in
      rw
        (
          there,
          bucket_of-some same hash m k pos,
          pointers (hash k % length m.heads) (omega (arith, pos)),
          run,
        )
        refl

  -- `mapInsert` of a key that a well-formed map does not have, where cmpfunc is an equivalence that
  -- hashfunc respects, ends in a well-formed map, in which the keys equal to the new one have its value
  -- and every other key has what it had.
  pub map_insert-IsMap :
      (m : Map K V) (k : K) (v : V)
      → IsKey same hash
      → IsMap same hash m
      → assoc same hash k m.nodes ≡ none
      → (m' : Map K V) × (map_insert same hash m k v ≡ some m')
        × IsMap same hash m'
        × ((k' : K) → held same hash m' k' ≡ (if same k' k then some v else held same hash m k'))
  map_insert-IsMap m k v key inv absent =
      let (pos, pointers, hashed, chain, distinct, below, size) = inv in
      let new = node_for m k v in
      let missing = assoc-Missing k m.nodes absent in
      let fresh = Missing-Fresh key new m.fresh m.nodes refl below missing in
      let (heads, ns, run, len, pointers', inserted) =
        link-Inserted new m key.1 pointers (omega (arith, pos)) fresh chain distinct in
      let (all, chain', distinct', size', assoc') = inserted in
      (
        record { heads = heads; nodes = ns; size = m.size + 1; fresh = m.fresh + 1 },
        map_insert-link m k v heads ns key.2 inv absent run,
        (
          rw len pos,
          pointers',
          rw len (all (λ n. n.bucket ≡ hash n.key % length m.heads) refl hashed),
          chain',
          distinct',
          all (λ n. n.addr < m.fresh + 1) (omega arith) (All-weaken m.fresh m.nodes below),
          omega (arith, size', size),
        ),
        (λ k'. ap (item_of same hash) (assoc' k') ∙ held-new key k' new m.nodes missing),
      )

  -- `mapCreate` makes a well-formed map that holds nothing.
  pub map_create-IsMap :
      (count : ℕ)
      → 0 < count
      → IsMap {V = V} same hash (map_create same hash count)
        × ((k : K) → held {V = V} same hash (map_create same hash count) k ≡ none)
  unfolding map_create
  map_create-IsMap count pos = (
    (
      rw (length-replicate {A = Option ℕ} count none) pos,
      (λ b h. get_elem?-replicate count b none h),
      tt,
      tt,
      tt,
      tt,
      refl,
    ),
    (λ k. refl),
  )
