-- ===== src/Util/Map/Overwrite.antt =====
-- `mapSet` of src/util/map.c, which overwrites the node of a key that is there and inserts one that is not.
use mathlib.Core.Path.{subst}
use kanana.Base.{
  ℕ, suc, ◌<◌, ◌%◌, ◌≡◌, ◌≢◌, inl, inr, refl, sym, ap, ◌∙◌, Option, none, some, List, [], ◌∷◌, Bool,
  true, false, ◌==◌, ==_iff, Bool-cases, Option-cases, if◌then◌else◌, All, length,
}
use kanana.Util.Map.{Node, Map, map_set, set_found, overwrite, lookup, item_of}
use kanana.Util.Map.Chain.{Joins, IsChain, Distinct, first, IsKey, assoc, clash, not-here}
use kanana.Util.Map.Lookup.{IsMap, held, lookup-assoc}
use kanana.Util.Map.WellFormed.{map_insert-IsMap}

module _ {ℓ} {K V : Type ℓ} (same : K → K → Bool) (hash : K → ℕ) (k : K) (v : V) where
  abbrev renewed : Node K V → Node K V
  renewed n = record n { key = k; item = v }

  -- The first node with an equal key gets the new key and value.
  abbrev replaced : List (Node K V) → List (Node K V)
  replaced [] = []
  replaced (n ∷ ns) = let rest = replaced ns in if same k n.key then renewed n ∷ ns else n ∷ rest

  some-node : {x y : Node K V} → some x ≡ some y → x ≡ y
  some-node h = cc

  none-node : {x : Node K V} → none ≡ some x → ⊥
  none-node h = cc

  assoc-All :
      (P : Node K V → Type 0) (n : Node K V) (ns : List (Node K V))
      → All P ns
      → assoc same hash k ns ≡ some n
      → P n
  assoc-All P n [] _ h = absurd (none-node h)
  assoc-All P n (x ∷ xs) (hx, hs) h = elim (Bool-cases (same k x.key)) [
    | inl e ↦ subst P (some-node (rw e at h)) hx
    | inr e ↦ assoc-All P n xs hs (rw e at h)
  ]

  -- The address of the node found is that of the first node with an equal key.
  overwrite-replaced :
      (n : Node K V) (ns : List (Node K V))
      → Distinct ns
      → assoc same hash k ns ≡ some n
      → overwrite same hash n.addr k v ns ≡ replaced ns
  overwrite-replaced n [] _ h = refl
  overwrite-replaced n (x ∷ xs) (apart, distinct) h = elim (Bool-cases (same k x.key)) [
    | inl e ↦
        let there : (x.addr == n.addr) ≡ true =
          (==_iff _ _).1 (ap (λ y. y.addr) (some-node (rw e at h))) in
        rw (there, e) refl
    | inr e ↦
        let h' : assoc same hash k xs ≡ some n = rw e at h in
        let other = not-here n.addr x.addr (assoc-All (λ y. y.addr ≢ x.addr) n xs apart h') in
        rw (other, e) (ap (λ ys. x ∷ ys) (overwrite-replaced n xs distinct h'))
  ]

  replaced-All :
      (P : Node K V → Type 0)
      → ((n : Node K V) → same k n.key ≡ true → P n → P (renewed n))
      → (ns : List (Node K V)) → All P ns
      → All P (replaced ns)
  replaced-All P f [] _ = tt
  replaced-All P f (n ∷ ns) (h, hs) = elim (Bool-cases (same k n.key)) [
    | inl e ↦ rw e (f n e h, hs)
    | inr e ↦ rw e (h, replaced-All P f ns hs)
  ]

  first-replaced : (c : ℕ) (ns : List (Node K V)) → first c (replaced ns) ≡ first c ns
  first-replaced c [] = refl
  first-replaced c (n ∷ ns) = elim (Bool-cases (same k n.key)) [
    | inl e ↦ rw e refl
    | inr e ↦ rw e (ap (λ r. if n.bucket == c then some n.addr else r) (first-replaced c ns))
  ]

  replaced-Joins : (c : ℕ) (ns : List (Node K V)) → Joins c ns → Joins c (replaced ns)
  replaced-Joins c [] _ = tt
  replaced-Joins c (n ∷ ns) j = elim (Bool-cases (same k n.key)) [
    | inl e ↦ rw e j
    | inr e ↦ rw e (later j)
  ]
    where
      later : Joins c (n ∷ ns) → Joins c (n ∷ replaced ns)
      later (inl here) = inl here
      later (inr (h, hs)) = inr (h, replaced-All (λ m. m.bucket ≢ c) (λ _ _ h. h) ns hs)

  replaced-IsChain : (ns : List (Node K V)) → IsChain ns → IsChain (replaced ns)
  replaced-IsChain [] _ = tt
  replaced-IsChain (n ∷ ns) (j, chain) = elim (Bool-cases (same k n.key)) [
    | inl e ↦ rw e (j, chain)
    | inr e ↦ rw e (replaced-Joins n.bucket ns j, replaced-IsChain ns chain)
  ]

  replaced-Distinct : (ns : List (Node K V)) → Distinct ns → Distinct (replaced ns)
  replaced-Distinct [] _ = tt
  replaced-Distinct (n ∷ ns) (apart, distinct) = elim (Bool-cases (same k n.key)) [
    | inl e ↦ rw e (apart, distinct)
    | inr e ↦
        rw e
          (replaced-All (λ m. m.addr ≢ n.addr) (λ _ _ h. h) ns apart, replaced-Distinct ns distinct)
  ]

  length-replaced : (ns : List (Node K V)) → length (replaced ns) ≡ length ns
  length-replaced [] = refl
  length-replaced (n ∷ ns) = elim (Bool-cases (same k n.key)) [
    | inl e ↦ rw e refl
    | inr e ↦ rw e (ap suc (length-replaced ns))
  ]

  -- Keys are equal to the new one as they were to the one it replaces.
  same-renewed :
      IsKey same hash → (k' x : K) → same k x ≡ true → same k' k ≡ false → same k' x ≡ false
  same-renewed key k' x e differs = elim (Bool-cases (same k' x)) [
    | inl e' ↦
        absurd
          (clash differs (key.1 x k' k (key.1 k' x k' e' (key.0 k')) (key.1 k x k e (key.0 k))))
    | inr e' ↦ e'
  ]

  -- What a key has once the first node with an equal key is overwritten.
  assoc-replaced :
      IsKey same hash
      → (k' : K) (n : Node K V) (ns : List (Node K V)) → assoc same hash k ns ≡ some n
      → item_of same hash (assoc same hash k' (replaced ns))
        ≡ (if same k' k then some v else item_of same hash (assoc same hash k' ns))
  assoc-replaced key k' n [] h = absurd (none-node h)
  assoc-replaced key k' n (x ∷ xs) h = elim (Bool-cases (same k x.key)) [
    | inl e ↦ elim (Bool-cases (same k' k)) [
      | inl e' ↦ rw (e, e') refl
      | inr e' ↦ rw (e, e', same-renewed key k' x.key e e') refl
    ]
    | inr e ↦ elim (Bool-cases (same k' x.key)) [
      | inl e' ↦ elim (Bool-cases (same k' k)) [
        | inl e'' ↦ absurd (clash e (key.1 k' k x.key e'' e'))
        | inr e'' ↦ rw (e, e', e'') refl
      ]
      | inr e' ↦ rw (e, e') (assoc-replaced key k' n xs (rw e at h))
    ]
  ]

module _ {ℓ} {K V : Type ℓ} (same : K → K → Bool) (hash : K → ℕ) where
  map_set-lookup :
      (m : Map K V) (k : K) (v : V) (o : Option (Node K V))
      → lookup same hash m k ≡ some o
      → map_set same hash m k v ≡ set_found same hash o m k v
  unfolding map_set
  map_set-lookup m k v o h = rw h refl

  replaced-IsMap :
      (m : Map K V) (k : K) (v : V)
      → IsKey same hash
      → IsMap same hash m
      → IsMap same hash (record m { nodes = replaced same hash k v m.nodes })
  replaced-IsMap m k v key (pos, pointers, hashed, chain, distinct, below, size) = (
    pos,
    (λ b h. pointers b h ∙ ap some (sym (first-replaced same hash k v b m.nodes))),
    replaced-All same hash k v (λ n. n.bucket ≡ hash n.key % length m.heads)
        (λ n e h. h ∙ ap (λ x. x % length m.heads) (sym (key.2 k n.key e))) m.nodes hashed,
    replaced-IsChain same hash k v m.nodes chain,
    replaced-Distinct same hash k v m.nodes distinct,
    replaced-All same hash k v (λ n. n.addr < m.fresh) (λ _ _ h. h) m.nodes below,
    length-replaced same hash k v m.nodes ∙ size,
  )

  -- `mapSet` of any key in a well-formed map, where cmpfunc is an equivalence that hashfunc respects,
  -- succeeds and ends in a well-formed map, in which the keys equal to the new one have its value and
  -- every other key has what it had.
  pub map_set-IsMap :
      (m : Map K V) (k : K) (v : V)
      → IsKey same hash
      → IsMap same hash m
      → (m' : Map K V) × (map_set same hash m k v ≡ some m')
        × IsMap same hash m'
        × ((k' : K) → held same hash m' k' ≡ (if same k' k then some v else held same hash m k'))
  map_set-IsMap m k v key inv =
      let seen = lookup-assoc same hash key.2 m k inv in
      let (_, _, _, _, distinct, _, _) = inv in
      elim (Option-cases (assoc same hash k m.nodes)) [
        | inl e ↦
            let (m', run, inv', holds) = map_insert-IsMap same hash m k v key inv e in
            (m', map_set-lookup m k v none (seen ∙ ap some e) ∙ run, inv', holds)
        | inr (n, e) ↦ (
          record m { nodes = replaced same hash k v m.nodes },
          map_set-lookup m k v (some n) (seen ∙ ap some e)
              ∙ ap (λ ns. some (record m { nodes = ns }))
                  (overwrite-replaced same hash k v n m.nodes distinct e),
          replaced-IsMap m k v key inv,
          (λ k'. assoc-replaced same hash k v key k' n m.nodes e),
        )
      ]
