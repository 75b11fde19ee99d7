-- ===== src/Util/Map/Chain.antt =====
-- The list of nodes of src/util/map.c: the nodes of a bucket stand together, the bucket's pointer is
-- that of the first of them, and no two nodes have one address.
use mathlib.Core.Path.{subst}
use kanana.Base.{
  ℕ, ◌%◌, ◌≡◌, ◌≢◌, ◌⊎◌, inl, inr, refl, sym, ap, ◌∙◌, arith, Option, none, some, List, [], ◌∷◌,
  Bool, true, false, ◌==◌, ==_iff, Bool-cases, if◌then◌else◌, All,
}
use kanana.Base.Memory.{◌>>=◌}
use kanana.Util.Map.{Node, from, scan_next, scan}

pub some≢none : {A : Type 0} (o : Option A) (a : A) → o ≡ some a → o ≡ none → ⊥
some≢none o a h h' = cc

pub some-eq : {x y : ℕ} → some x ≡ some y → x ≡ y
some-eq h = cc

-- A hash that respects the comparison, as cmpfunc and hashfunc must agree.
abbrev pub RespectsHash {ℓ} : {K : Type ℓ} → (K → K → Bool) → (K → ℕ) → Type ℓ
RespectsHash {K = K} same hash = (k k' : K) → same k k' ≡ true → hash k ≡ hash k'

-- What cmpfunc and hashfunc promise: an equivalence, which the hash respects.
abbrev pub IsKey {ℓ} : {K : Type ℓ} → (K → K → Bool) → (K → ℕ) → Type ℓ
IsKey {K = K} same hash =
    ((k : K) → same k k ≡ true)
    × ((k x y : K) → same k x ≡ true → same k y ≡ true → same x y ≡ true)
    × RespectsHash same hash

module _ {ℓ} {K V : Type ℓ} where
  -- No node is in a bucket.
  abbrev pub Absent : ℕ → List (Node K V) → Type 0
  Absent b = All (λ n. n.bucket ≢ b)

  -- The list goes on in a bucket, or has no node of it.
  abbrev pub Joins : ℕ → List (Node K V) → Type 0
  Joins b [] = Unit
  Joins b (n ∷ ns) = (n.bucket ≡ b) ⊎ Absent b (n ∷ ns)

  abbrev pub IsChain : List (Node K V) → Type 0
  IsChain [] = Unit
  IsChain (n ∷ ns) = Joins n.bucket ns × IsChain ns

  abbrev pub Distinct : List (Node K V) → Type 0
  Distinct [] = Unit
  Distinct (n ∷ ns) = All (λ n'. n'.addr ≢ n.addr) ns × Distinct ns

  -- The pointer of a bucket.
  abbrev pub first : ℕ → List (Node K V) → Option ℕ
  first b [] = none
  first b (n ∷ ns) = let rest = first b ns in if n.bucket == b then some n.addr else rest

  pub first-differs :
      (b a c : ℕ) (ns : List (Node K V)) → first b ns ≡ some a → All (λ n. n.addr ≢ c) ns → a ≢ c
  first-differs b a c [] h _ e = some≢none _ a h refl
  first-differs b a c (n ∷ ns) h (hn, hs) e = elim (Bool-cases (n.bucket == b)) [
    | inl e' ↦ hn (some-eq (rw e' at h) ∙ e)
    | inr e' ↦ first-differs b a c ns (rw e' at h) hs e
  ]

  pub first-Absent : (b : ℕ) (ns : List (Node K V)) → first b ns ≡ none → Absent b ns
  first-Absent b [] h = tt
  first-Absent b (n ∷ ns) h = elim (Bool-cases (n.bucket == b)) [
    | inl e ↦ absurd (some≢none _ n.addr refl (rw e at h))
    | inr e ↦ ((λ e'. ground (arith, e, e')), first-Absent b ns (rw e at h))
  ]

pub clash : {b : Bool} → b ≡ false → b ≡ true → ⊥
clash h h' = cc

pub not-here : (a c : ℕ) → a ≢ c → (c == a) ≡ false
not-here a c h = elim (Bool-cases (c == a)) [
  | inl e ↦ absurd (h (sym ((==_iff c a).0 e)))
  | inr e ↦ e
]

module _ {ℓ} {K V : Type ℓ} (same : K → K → Bool) (hash : K → ℕ) where
  -- The node of a key, wherever it is.
  abbrev pub assoc : K → List (Node K V) → Option (Node K V)
  assoc k [] = none
  assoc k (n ∷ ns) = let rest = assoc k ns in if same k n.key then some n else rest

  abbrev pub Hashed : ℕ → List (Node K V) → Type 0
  Hashed count = All (λ n. n.bucket ≡ hash n.key % count)

  pub assoc-Absent :
      RespectsHash same hash
      → (count : ℕ) (k : K) (ns : List (Node K V)) → Hashed count ns
      → Absent (hash k % count) ns
      → assoc k ns ≡ none
  assoc-Absent agree count k [] _ _ = refl
  assoc-Absent agree count k (n ∷ ns) (hn, hs) (away, others) = elim (Bool-cases (same k n.key)) [
    | inl e ↦ absurd (away (hn ∙ ap (λ h. h % count) (sym (agree k n.key e))))
    | inr e ↦ rw e (assoc-Absent agree count k ns hs others)
  ]

  scan_next-assoc :
      RespectsHash same hash
      → (count : ℕ) (k : K) (ns : List (Node K V)) → Hashed count ns
      → IsChain ns
      → Joins (hash k % count) ns
      → scan_next same hash (hash k % count) k ns ≡ assoc k ns
  unfolding scan_next
  scan_next-assoc agree count k [] _ _ _ = refl
  scan_next-assoc agree count k (n ∷ ns) (hn, hs) (joins, chain) j =
      elim (Bool-cases (n.bucket == hash k % count)) [
        | inl e ↦
            let here : n.bucket ≡ hash k % count = (==_iff _ _).0 e in
            rw e (
              ap (λ rest. if same k n.key then some n else rest)
                (scan_next-assoc agree count k ns hs chain (subst (λ b. Joins b ns) here joins)))
        | inr e ↦ rw e (sym (assoc-Absent agree count k (n ∷ ns) (hn, hs) (away e j)))
      ]
    where
      away :
          (n.bucket == hash k % count) ≡ false
          → Joins (hash k % count) (n ∷ ns)
          → Absent (hash k % count) (n ∷ ns)
      away e (inl e') = absurd (clash e ((==_iff _ _).1 e'))
      away e (inr absent) = absent

  -- The walk from the pointer of a bucket finds what the whole list has.
  pub from-assoc :
      RespectsHash same hash
      → (count : ℕ) (k : K) (a : ℕ) (ns : List (Node K V)) → Hashed count ns
      → IsChain ns
      → Distinct ns
      → first (hash k % count) ns ≡ some a
      → (from a ns >>= λ ns'. some (scan same hash (hash k % count) k ns')) ≡ some (assoc k ns)
  unfolding from scan
  from-assoc agree count k a [] _ _ _ h = absurd (some≢none _ a h refl)
  from-assoc agree count k a (n ∷ ns) (hn, hs) (joins, chain) (apart, distinct) h =
      elim (Bool-cases (n.bucket == hash k % count)) [
        | inl e ↦
            let here : n.bucket ≡ hash k % count = (==_iff _ _).0 e in
            let found = (==_iff n.addr a).1 (some-eq (rw e at h)) in
            let rest =
              scan_next-assoc agree count k ns hs chain (subst (λ b. Joins b ns) here joins) in
            rw found (ap (λ r. some (if same k n.key then some n else r)) rest)
        | inr e ↦
            let h' : first (hash k % count) ns ≡ some a = rw e at h in
            let later = not-here a n.addr (first-differs _ a n.addr ns h' apart) in
            elim (Bool-cases (same k n.key)) [
              | inl e' ↦
                  absurd
                    (clash e ((==_iff _ _).1 (hn ∙ ap (λ x. x % count) (sym (agree k n.key e')))))
              | inr e' ↦ rw (later, e') (from-assoc agree count k a ns hs chain distinct h')
            ]
      ]
