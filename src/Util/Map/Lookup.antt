-- ===== src/Util/Map/Lookup.antt =====
-- Lookup in a map of src/util/map.c, and what mapRemove leaves behind.
use mathlib.Core.Path.{subst}
use kanana.Base.{
  ℕ, ◌<◌, ◌%◌, ◌-◌, ◌≡◌, ◌≢◌, inl, inr, refl, sym, ap, ◌∙◌, arith, Option, none, some, List, [],
  ◌∷◌, Bool, true, false, ◌==◌, ==_iff, Bool-cases, Option-cases, All, length, get_elem?,
}
use kanana.Util.Map.{
  Node, Map, from, lookup, bucket_of, scan_from, map_get, map_exists, map_remove, unlink, item_of,
  found,
}
use kanana.Util.Map.Chain.{
  IsChain, Distinct, first, some≢none, first-Absent, RespectsHash, assoc, Hashed, assoc-Absent,
  from-assoc, not-here, clash, some-eq,
}

pub some-injective : {x y : Option ℕ} → some x ≡ some y → x ≡ y
some-injective h = cc

module _ {ℓ} {K V : Type ℓ} (same : K → K → Bool) (hash : K → ℕ) where
  -- There are buckets; each pointer is that of the first node of its bucket; the nodes of a bucket stand
  -- together, at addresses that are in use; the size is their number.
  abbrev pub IsMap : Map K V → Type 0
  IsMap m =
      (0 < length m.heads)
      × ((b : ℕ) → b < length m.heads → get_elem? m.heads b ≡ some (first b m.nodes))
      × Hashed same hash (length m.heads) m.nodes
      × IsChain m.nodes
      × Distinct m.nodes
      × All (λ n. n.addr < m.fresh) m.nodes
      × (length m.nodes ≡ m.size)

  -- What a map holds for a key: the abstract view, which forgets the buckets.
  abbrev pub held : Map K V → K → Option V
  held m k = item_of same hash (assoc same hash k m.nodes)

  pub bucket_of-some :
      (m : Map K V) (k : K)
      → 0 < length m.heads
      → bucket_of same hash m k ≡ some (hash k % length m.heads)
  unfolding bucket_of
  bucket_of-some m k h =
      let some_buckets : (length m.heads == 0) ≡ false = ground arith in rw some_buckets refl

  bucket_of-heads :
      (m m' : Map K V) (k : K)
      → 0 < length m.heads
      → m'.heads ≡ m.heads
      → bucket_of same hash m' k ≡ some (hash k % length m.heads)
  bucket_of-heads m m' k pos e = rw (sym e) (bucket_of-some m' k (rw e pos))

  scan_from-assoc :
      RespectsHash same hash
      → (count : ℕ) (k : K) (ns : List (Node K V)) → Hashed same hash count ns
      → IsChain ns
      → Distinct ns
      → scan_from same hash (first (hash k % count) ns) (hash k % count) k ns
        ≡ some (assoc same hash k ns)
  unfolding scan_from
  scan_from-assoc agree count k ns hashed chain distinct =
      elim (Option-cases (first (hash k % count) ns)) [
        | inl e ↦ rw (e, assoc-Absent same hash agree count k ns hashed (first-Absent _ ns e)) refl
        | inr (a, e) ↦ rw e (from-assoc same hash agree count k a ns hashed chain distinct e)
      ]

  pub lookup-assoc :
      RespectsHash same hash
      → (m : Map K V) (k : K) → IsMap m
      → lookup same hash m k ≡ some (assoc same hash k m.nodes)
  unfolding lookup
  lookup-assoc agree m k (pos, heads, hashed, chain, distinct, _, _) =
      rw (bucket_of-some m k pos, heads (hash k % length m.heads) (omega (arith, pos)))
        (scan_from-assoc agree (length m.heads) k m.nodes hashed chain distinct)

  -- `mapGet` and `mapExists` on a well-formed map: they never read freed memory and see what the map
  -- holds for the key, if the hash respects the comparison.
  pub map_get-held :
      RespectsHash same hash
      → (m : Map K V) (k : K) → IsMap m
      → (map_get same hash m k ≡ some (held m k))
        × (map_exists same hash m k ≡ some (found same hash (assoc same hash k m.nodes)))
  unfolding map_get map_exists
  map_get-held agree m k h = let e = lookup-assoc agree m k h in (rw e refl, rw e refl)

  from-apart : (a : ℕ) (ns : List (Node K V)) → All (λ n. n.addr ≢ a) ns → from a ns ≡ none
  unfolding from
  from-apart a [] _ = refl
  from-apart a (n ∷ ns) (h, hs) =
      let other = not-here a n.addr (λ e. h (sym e)) in rw other (from-apart a ns hs)

  -- The node unlinked is gone.
  unlink-from :
      (b a : ℕ) (ns : List (Node K V))
      → Distinct ns
      → first b ns ≡ some a
      → (ns' : List (Node K V)) × (unlink same hash a ns ≡ some ns') × (from a ns' ≡ none)
  unfolding unlink from
  unlink-from b a [] _ h = absurd (some≢none _ a h refl)
  unlink-from b a (n ∷ ns) (apart, distinct) h = elim (Bool-cases (n.addr == a)) [
    | inl e ↦ (
      ns,
      rw e refl,
      from-apart a ns (subst (λ c. All (λ n'. n'.addr ≢ c) ns) ((==_iff _ _).0 e) apart),
    )
    | inr e ↦ elim (Bool-cases (n.bucket == b)) [
      | inl e' ↦ absurd (clash e ((==_iff _ _).1 (some-eq (rw e' at h))))
      | inr e' ↦
          let (ns', run, gone) = unlink-from b a ns distinct (rw e' at h) in
          (n ∷ ns', rw (e, run) refl, rw e gone)
    ]
  ]

  lookup-dangling :
      (m : Map K V) (k : K) (b a : ℕ)
      → bucket_of same hash m k ≡ some b
      → get_elem? m.heads b ≡ some (some a)
      → from a m.nodes ≡ none
      → lookup same hash m k ≡ none
  unfolding lookup scan_from
  lookup-dangling m k b a bucket head gone = rw (bucket, head, gone) refl

  -- `mapRemove` of any key whose bucket has a node succeeds, whether or not the key is there: it takes
  -- away the first node of the bucket and leaves the bucket's pointer to it, so that every lookup in
  -- that bucket from then on reads freed memory.
  pub map_remove-lookup :
      (m : Map K V) (k k' : K) (a : ℕ)
      → IsMap m
      → get_elem? m.heads (hash k % length m.heads) ≡ some (some a)
      → hash k' % length m.heads ≡ hash k % length m.heads
      → (m' : Map K V) × (map_remove same hash m k ≡ some (m', true))
        × (m'.size ≡ m.size - 1)
        × (lookup same hash m' k' ≡ none)
  unfolding map_remove
  map_remove-lookup m k k' a (pos, heads, _, _, distinct, _, _) h same_bucket =
      let b = hash k % length m.heads in
      let pointer : first b m.nodes ≡ some a =
        some-injective (sym (heads b (omega (arith, pos))) ∙ h) in
      let (ns', run, gone) = unlink-from b a m.nodes distinct pointer in
      let m' : Map K V = record m { nodes = ns'; size = m.size - 1 } in
      (
        m',
        rw (bucket_of-some m k pos, h, run) refl,
        refl,
        lookup-dangling m' k' b a (bucket_of-heads m m' k' pos refl ∙ ap some same_bucket) h gone,
      )
