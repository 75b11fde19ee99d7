-- ===== src/Util/Map/Insert.antt =====
-- Where `mapInsert` of src/util/map.c puts a node in the list.
use mathlib.Core.Path.{subst}
use kanana.Base.{
  ℕ, suc, ◌≡◌, ◌≢◌, inl, inr, refl, sym, ap, ◌∙◌, Option, none, some, List, [], ◌∷◌, ◌++◌, Bool,
  true, false, ◌==◌, ==_iff, Bool-cases, if◌then◌else◌, All, length,
}
use kanana.Util.Map.{Node, insert_in_bucket, insert_from}
use kanana.Util.Map.Chain.{
  Absent, Joins, IsChain, Distinct, first, some≢none, some-eq, first-differs, assoc, clash,
  not-here,
}

module _ {ℓ} {K V : Type ℓ} (same : K → K → Bool) (hash : K → ℕ) (new : Node K V) where
  -- What a key has once a node with no equal key is there.
  abbrev pub or_new : K → Option (Node K V) → Option (Node K V)
  or_new k none = if same k new.key then some new else none
  or_new k (some n) = some n

  abbrev pub Fresh : List (Node K V) → Type 0
  Fresh = All (λ n. (n.addr ≢ new.addr) × (same n.key new.key ≡ false))

  -- A list with the new node in it: whatever holds of all nodes still does, the nodes of each bucket
  -- stand together, and each key has what it had, or the new node.
  abbrev pub Inserted : List (Node K V) → List (Node K V) → Type (1 ⊔ ℓ)
  Inserted ns ns' =
      ((P : Node K V → Type 0) → P new → All P ns → All P ns')
      × IsChain ns'
      × Distinct ns'
      × (length ns' ≡ suc (length ns))
      × ((k : K) → assoc same hash k ns' ≡ or_new k (assoc same hash k ns))

  abbrev pub IsEuclidean : Type ℓ
  IsEuclidean = (k x y : K) → same k x ≡ true → same k y ≡ true → same x y ≡ true

  assoc-Fresh :
      IsEuclidean
      → (k : K) (ns : List (Node K V)) → Fresh ns
      → same k new.key ≡ true
      → assoc same hash k ns ≡ none
  assoc-Fresh euclid k [] _ _ = refl
  assoc-Fresh euclid k (n ∷ ns) ((_, differs), fresh) h = elim (Bool-cases (same k n.key)) [
    | inl e ↦ absurd (clash differs (euclid k n.key new.key e h))
    | inr e ↦ rw e (assoc-Fresh euclid k ns fresh h)
  ]

  assoc-front :
      IsEuclidean
      → (k : K) (ns : List (Node K V)) → Fresh ns
      → assoc same hash k (new ∷ ns) ≡ or_new k (assoc same hash k ns)
  assoc-front euclid k ns fresh = elim (Bool-cases (same k new.key)) [
    | inl e ↦ rw (assoc-Fresh euclid k ns fresh e, e) refl
    | inr e ↦ rw e (other e (assoc same hash k ns))
  ]
    where
      other : same k new.key ≡ false → (o : Option (Node K V)) → o ≡ or_new k o
      other e none = rw e refl
      other e (some n) = refl

  assoc-cons :
      (k : K) (n : Node K V) (ns ns' : List (Node K V))
      → assoc same hash k ns' ≡ or_new k (assoc same hash k ns)
      → assoc same hash k (n ∷ ns') ≡ or_new k (assoc same hash k (n ∷ ns))
  assoc-cons k n ns ns' h = elim (Bool-cases (same k n.key)) [ inl e ↦ rw e refl | inr e ↦ rw e h ]

  -- Under a first node that stays, the new node goes into the rest.
  Inserted-cons :
      (n : Node K V) (ns ns' : List (Node K V))
      → n.addr ≢ new.addr
      → All (λ m. m.addr ≢ n.addr) ns
      → Joins n.bucket ns'
      → Inserted ns ns'
      → Inserted (n ∷ ns) (n ∷ ns')
  Inserted-cons n ns ns' differs apart joins (all, chain, distinct, len, held) = (
    (λ P hnew (hn, hs). (hn, all P hnew hs)),
    (joins, chain),
    (all (λ m. m.addr ≢ n.addr) (λ e. differs (sym e)) apart, distinct),
    ap suc len,
    (λ k. assoc-cons k n ns ns' (held k)),
  )

  first-other : (c : ℕ) (ns : List (Node K V)) → c ≢ new.bucket → first c (new ∷ ns) ≡ first c ns
  first-other c ns h = rw (not-here c new.bucket h) refl

  Fresh-apart : (ns : List (Node K V)) → Fresh ns → All (λ n. n.addr ≢ new.addr) ns
  Fresh-apart [] _ = tt
  Fresh-apart (n ∷ ns) ((h, _), hs) = (h, Fresh-apart ns hs)

  Joins-Absent :
      (n : Node K V) (ns : List (Node K V))
      → (n.bucket == new.bucket) ≡ false
      → Joins new.bucket (n ∷ ns)
      → Absent new.bucket (n ∷ ns)
  Joins-Absent n ns e (inl e') = absurd (clash e ((==_iff _ _).1 e'))
  Joins-Absent n ns e (inr absent) = absent

  insert_in_bucket-Inserted :
      IsEuclidean
      → (ns : List (Node K V)) → Fresh ns
      → Joins new.bucket ns
      → IsChain ns
      → Distinct ns
      → (ns' : List (Node K V)) × (insert_in_bucket same hash new ns ≡ some ns')
        × Joins new.bucket ns'
        × ((c : ℕ) → c ≢ new.bucket → first c ns' ≡ first c ns)
        × Inserted ns ns'
  unfolding insert_in_bucket
  insert_in_bucket-Inserted euclid [] _ _ _ _ = (
    new ∷ [],
    refl,
    inl refl,
    (λ c h. first-other c [] h),
    ((λ P hnew _. (hnew, tt)), (tt, tt), (tt, tt), refl, λ k. assoc-front euclid k [] tt),
  )
  insert_in_bucket-Inserted euclid (n ∷ ns) ((apart, differs), fresh) joins (next, chain)
        (others, distinct) =
      elim (Bool-cases (n.bucket == new.bucket)) [
        | inl e ↦
            let here : n.bucket ≡ new.bucket = (==_iff _ _).0 e in
            let (ns', run, joined, firsts, inserted) =
              insert_in_bucket-Inserted euclid ns fresh (subst (λ b. Joins b ns) here next) chain
                distinct in
            (
              n ∷ ns',
              rw (e, differs, run) refl,
              inl here,
              (λ c h. ap (λ r. if n.bucket == c then some n.addr else r) (firsts c h)),
              Inserted-cons n ns ns' apart others (subst (λ b. Joins b ns') (sym here) joined)
                  inserted,
            )
        | inr e ↦
            let absent = Joins-Absent n ns e joins in
            (
              new ∷ n ∷ ns,
              rw e refl,
              inl refl,
              (λ c h. first-other c (n ∷ ns) h),
              (
                (λ P hnew h. (hnew, h)),
                (inr absent, (next, chain)),
                ((apart, Fresh-apart ns fresh), (others, distinct)),
                refl,
                (λ k. assoc-front euclid k (n ∷ ns) ((apart, differs), fresh)),
              ),
            )
      ]

  Joins-cons :
      (c : ℕ) (n : Node K V) (ns ns' : List (Node K V))
      → c ≢ new.bucket
      → ((P : Node K V → Type 0) → P new → All P ns → All P ns')
      → Joins c (n ∷ ns)
      → Joins c (n ∷ ns')
  Joins-cons c n ns ns' other all (inl e) = inl e
  Joins-cons c n ns ns' other all (inr (h, hs)) =
      inr (h, all (λ m. m.bucket ≢ c) (λ e. other (sym e)) hs)

  first-cons :
      (c : ℕ) (n : Node K V) (ns ns' : List (Node K V))
      → n.bucket ≡ new.bucket
      → ((c : ℕ) → c ≢ new.bucket → first c ns' ≡ first c ns)
      → first c (n ∷ ns') ≡ first c (n ∷ ns)
  first-cons c n ns ns' here firsts = elim (Bool-cases (n.bucket == c)) [
    | inl e ↦ rw e refl
    | inr e ↦ rw e (firsts c λ e'. clash e ((==_iff _ _).1 (here ∙ sym e')))
  ]

  -- From the pointer of its bucket on.
  pub insert_from-Inserted :
      IsEuclidean
      → (a : ℕ) (ns : List (Node K V)) → first new.bucket ns ≡ some a
      → Fresh ns
      → IsChain ns
      → Distinct ns
      → (ns' : List (Node K V)) × (insert_from same hash a new ns ≡ some ns')
        × ((c : ℕ) → c ≢ new.bucket → Joins c ns → Joins c ns')
        × ((c : ℕ) → first c ns' ≡ first c ns)
        × Inserted ns ns'
  unfolding insert_from
  insert_from-Inserted euclid a [] h _ _ _ = absurd (some≢none _ a h refl)
  insert_from-Inserted euclid a (n ∷ ns) h ((apart, differs), fresh) (next, chain)
        (others, distinct) =
      elim (Bool-cases (n.bucket == new.bucket)) [
        | inl e ↦
            let here : n.bucket ≡ new.bucket = (==_iff _ _).0 e in
            let there : (n.addr == a) ≡ true = (==_iff _ _).1 (some-eq (rw e at h)) in
            let (ns', run, joined, firsts, inserted) =
              insert_in_bucket-Inserted euclid ns fresh (subst (λ b. Joins b ns) here next) chain
                distinct in
            (
              n ∷ ns',
              rw (there, run) refl,
              (λ c other j. Joins-cons c n ns ns' other inserted.0 j),
              (λ c. first-cons c n ns ns' here firsts),
              Inserted-cons n ns ns' apart others (subst (λ b. Joins b ns') (sym here) joined)
                  inserted,
            )
        | inr e ↦
            let h' : first new.bucket ns ≡ some a = rw e at h in
            let there : (n.addr == a) ≡ false =
              not-here a n.addr (first-differs _ a n.addr ns h' others) in
            let (ns', run, joined, firsts, inserted) =
              insert_from-Inserted euclid a ns h' fresh chain distinct in
            let apart_buckets : n.bucket ≢ new.bucket = λ e'. clash e ((==_iff _ _).1 e') in
            (
              n ∷ ns',
              rw (there, run) refl,
              (λ c other j. Joins-cons c n ns ns' other inserted.0 j),
              (λ c. ap (λ r. if n.bucket == c then some n.addr else r) (firsts c)),
              Inserted-cons n ns ns' apart others (joined n.bucket apart_buckets next) inserted,
            )
      ]

  All-last :
      (P : Node K V → Type 0) (ns : List (Node K V)) → P new → All P ns → All P (ns ++ new ∷ [])
  All-last P [] h _ = (h, tt)
  All-last P (n ∷ ns) h (hn, hs) = (hn, All-last P ns h hs)

  Joins-last :
      (c : ℕ) (ns : List (Node K V))
      → Absent new.bucket ns
      → c ≢ new.bucket
      → Joins c ns
      → Joins c (ns ++ new ∷ [])
  Joins-last c [] _ other _ = inr ((λ e. other (sym e)), tt)
  Joins-last c (n ∷ ns) _ other (inl e) = inl e
  Joins-last c (n ∷ ns) _ other (inr (h, hs)) =
      inr (h, All-last (λ m. m.bucket ≢ c) ns (λ e. other (sym e)) hs)

  pub first-last :
      (c : ℕ) (ns : List (Node K V)) → c ≢ new.bucket → first c (ns ++ new ∷ []) ≡ first c ns
  first-last c [] other = first-other c [] other
  first-last c (n ∷ ns) other =
      ap (λ r. if n.bucket == c then some n.addr else r) (first-last c ns other)

  pub first-last_new :
      (ns : List (Node K V))
      → Absent new.bucket ns
      → first new.bucket (ns ++ new ∷ []) ≡ some new.addr
  first-last_new [] _ = rw ((==_iff new.bucket new.bucket).1 refl) refl
  first-last_new (n ∷ ns) (h, hs) =
      rw (not-here new.bucket n.bucket (λ e. h (sym e))) (first-last_new ns hs)

  -- Behind all nodes, where the bucket has none.
  pub last-Inserted :
      IsEuclidean
      → (ns : List (Node K V)) → Absent new.bucket ns
      → Fresh ns
      → IsChain ns
      → Distinct ns
      → Inserted ns (ns ++ new ∷ [])
  last-Inserted euclid [] _ _ _ _ =
      ((λ P hnew _. (hnew, tt)), (tt, tt), (tt, tt), refl, λ k. assoc-front euclid k [] tt)
  last-Inserted euclid (n ∷ ns) (away, absent) ((apart, differs), fresh) (next, chain)
        (others, distinct) =
      Inserted-cons n ns (ns ++ new ∷ []) apart others (Joins-last n.bucket ns absent away next)
        (last-Inserted euclid ns absent fresh chain distinct)
