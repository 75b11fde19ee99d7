-- ===== src/Util/Map.antt =====
-- src/util/map.c, and src/util/dictionary.c, which is the same with strings for keys: a hash table whose
-- nodes are in one doubly linked list, with an array of pointers to the first node of each bucket.
-- The list is that of the nodes from `start` by `next`; a pointer is the address of a node, which is
-- never used again once the node is freed.
pub mod Chain
pub mod Lookup
pub mod Insert
pub mod WellFormed
pub mod Overwrite
use kanana.Base.{
  ℕ, zero, suc, ◌+◌, ◌-◌, ◌%◌, ◌≡◌, Option, none, some, List, [], ◌∷◌, ◌++◌, map, Bool, true, false,
  not, ◌==◌, if◌then◌else◌, length, get_elem?, replicate,
}
use kanana.Base.Memory.{◌>>=◌, ◌>>◌, assert, store}

-- `MNODE`; `bucket` is its `hash`.
pub record Node {ℓ} (K V : Type ℓ) : Type ℓ where
  pub addr : ℕ
  pub key : K
  pub item : V
  pub bucket : ℕ

pub record Map {ℓ} (K V : Type ℓ) : Type ℓ where
  pub heads : List (Option ℕ)
  pub nodes : List (Node K V)
  pub size : ℕ
  pub fresh : ℕ

-- The list from the node that a pointer points to.
unfoldable pub from {ℓ} : {K V : Type ℓ} → ℕ → List (Node K V) → Option (List (Node K V))
from a [] = none
from a (n ∷ ns) = let rest = from a ns in if n.addr == a then some (n ∷ ns) else rest

module _ {ℓ} {K V : Type ℓ} (same : K → K → Bool) (hash : K → ℕ) where
  unfoldable pub map_create : ℕ → Map K V
  map_create count = record { heads = replicate count none; nodes = []; size = 0; fresh = 0 }

  -- The loop over a bucket, from its second node on.
  unfoldable pub scan_next : ℕ → K → List (Node K V) → Option (Node K V)
  scan_next b k [] = none
  scan_next b k (n ∷ ns) =
      let rest = scan_next b k ns in
      if n.bucket == b then (if same k n.key then some n else rest) else none

  unfoldable pub scan : ℕ → K → List (Node K V) → Option (Node K V)
  scan b k [] = none
  scan b k (n ∷ ns) = let rest = scan_next b k ns in if same k n.key then some n else rest

  -- The bucket of a key; there must be buckets.
  unfoldable pub bucket_of : Map K V → K → Option ℕ
  bucket_of m k = if length m.heads == 0 then none else some (hash k % length m.heads)

  unfoldable pub scan_from : Option ℕ → ℕ → K → List (Node K V) → Option (Option (Node K V))
  scan_from none b k nodes = some none
  scan_from (some a) b k nodes = from a nodes >>= λ ns. some (scan b k ns)

  unfoldable pub lookup : Map K V → K → Option (Option (Node K V))
  lookup m k = do b ← bucket_of m k; head ← get_elem? m.heads b; scan_from head b k m.nodes

  abbrev pub found : Option (Node K V) → Bool
  found none = false
  found (some n) = true

  abbrev pub item_of : Option (Node K V) → Option V
  item_of none = none
  item_of (some n) = some n.item

  unfoldable pub map_exists : Map K V → K → Option Bool
  map_exists m k = lookup m k >>= λ o. some (found o)

  -- NULL, for a key that is not there, is `none`.
  unfoldable pub map_get : Map K V → K → Option (Option V)
  map_get m k = lookup m k >>= λ o. some (item_of o)

  -- Behind the last node of the bucket that the list begins in, past an assert for each of its keys.
  unfoldable pub insert_in_bucket : Node K V → List (Node K V) → Option (List (Node K V))
  insert_in_bucket new [] = some (new ∷ [])
  insert_in_bucket new (n ∷ ns) =
      let inside = (do
        assert (not (same n.key new.key))
        ns' ← insert_in_bucket new ns
        some (n ∷ ns')) in
      if n.bucket == new.bucket then inside else some (new ∷ n ∷ ns)

  -- The same, from the node at an address on.
  unfoldable pub insert_from : ℕ → Node K V → List (Node K V) → Option (List (Node K V))
  insert_from a new [] = none
  insert_from a new (n ∷ ns) =
      let here = insert_in_bucket new ns >>= λ ns'. some (n ∷ ns') in
      let later = insert_from a new ns >>= λ ns'. some (n ∷ ns') in
      if n.addr == a then here else later

  unfoldable pub link : Option ℕ → Node K V → Map K V → Option (Map K V)
  link none new m = do
    heads ← store m.heads new.bucket (some new.addr)
    some (record m { heads = heads; nodes = m.nodes ++ new ∷ [] })
  link (some a) new m = do nodes ← insert_from a new m.nodes; some (record m { nodes = nodes })

  unfoldable pub map_insert : Map K V → K → V → Option (Map K V)
  map_insert m k v = do
    there ← map_exists m k
    assert (not there)
    b ← bucket_of m k
    head ← get_elem? m.heads b
    m' ← link head (record { addr = m.fresh; key = k; item = v; bucket = b }) m
    some (record m' { size = m.size + 1; fresh = m.fresh + 1 })

  abbrev pub overwrite : ℕ → K → V → List (Node K V) → List (Node K V)
  overwrite a k v [] = []
  overwrite a k v (n ∷ ns) =
      let rest = overwrite a k v ns in
      if n.addr == a then record n { key = k; item = v } ∷ ns else n ∷ rest

  abbrev pub set_found : Option (Node K V) → Map K V → K → V → Option (Map K V)
  set_found none m k v = map_insert m k v
  set_found (some n) m k v = some (record m { nodes = overwrite n.addr k v m.nodes })

  unfoldable pub map_set : Map K V → K → V → Option (Map K V)
  map_set m k v = lookup m k >>= λ o. set_found o m k v

  unfoldable pub unlink : ℕ → List (Node K V) → Option (List (Node K V))
  unlink a [] = none
  unlink a (n ∷ ns) =
      let later = unlink a ns >>= λ ns'. some (n ∷ ns') in if n.addr == a then some ns else later

  abbrev remove_head : Option ℕ → Map K V → Option (Map K V × Bool)
  remove_head none m = some (m, false)
  remove_head (some a) m = do
    nodes ← unlink a m.nodes
    some (record m { nodes = nodes; size = m.size - 1 }, true)

  -- The node removed is the first of the bucket, and the bucket's pointer stays.
  unfoldable pub map_remove : Map K V → K → Option (Map K V × Bool)
  map_remove m k = do b ← bucket_of m k; head ← get_elem? m.heads b; remove_head head m

  unfoldable pub map_keys : Map K V → List K
  map_keys m = map (λ n. n.key) m.nodes
