-- ===== src/Util/Dictionary.antt =====
-- src/util/dictionary.c: a map with strings for keys. A string is the list of its chars.
pub mod Heads
pub mod Duplicate
use kanana.Base.{
  ℕ, ◌≡◌, refl, sym, ap, ◌∙◌, arith, Option, none, some, List, [], ◌∷◌, map, Bool, true, false,
  ◌==◌, ◌&&◌, if◌then◌else◌,
}
use kanana.Util.Map.{Node, Map, map_create, map_exists, map_get, map_insert, map_set, item_of}
use kanana.Util.Map.Chain.{IsKey, assoc}
use kanana.Util.Map.Lookup.{IsMap, held, map_get-held}
use kanana.Util.Map.WellFormed.{map_insert-IsMap}
use kanana.Util.Hash.{hash1}

-- `!strcmp(a,b)`
unfoldable pub str_eq : List ℕ → List ℕ → Bool
str_eq [] [] = true
str_eq (a ∷ as_) (b ∷ bs) = a == b && str_eq as_ bs
str_eq _ _ = false

module _ {V : Type 0} where
  unfoldable pub dict_create : ℕ → Map (List ℕ) V
  dict_create = map_create str_eq hash1

  unfoldable pub dict_exists : Map (List ℕ) V → List ℕ → Option Bool
  dict_exists = map_exists str_eq hash1

  unfoldable pub dict_get : Map (List ℕ) V → List ℕ → Option (Option V)
  dict_get = map_get str_eq hash1

  unfoldable pub dict_insert : Map (List ℕ) V → List ℕ → V → Option (Map (List ℕ) V)
  dict_insert = map_insert str_eq hash1

  unfoldable pub dict_set : Map (List ℕ) V → List ℕ → V → Option (Map (List ℕ) V)
  dict_set = map_set str_eq hash1

  unfoldable pub dict_keys : Map (List ℕ) V → List (List ℕ)
  dict_keys d = map (λ n. n.key) d.nodes

  unfoldable pub dict_values : Map (List ℕ) V → List V
  dict_values d = map (λ n. n.item) d.nodes

str_eq-eq : (a b : List ℕ) → str_eq a b ≡ true → a ≡ b
unfolding str_eq
str_eq-eq [] [] h = refl
str_eq-eq [] (b ∷ bs) h = cc
str_eq-eq (a ∷ as_) [] h = cc
str_eq-eq (a ∷ as_) (b ∷ bs) h =
    let head : a ≡ b = ground arith in
    let tail = str_eq-eq as_ bs (ground arith) in rw (head, tail) refl

str_eq_refl : (a : List ℕ) → str_eq a a ≡ true
unfolding str_eq
str_eq_refl [] = refl
str_eq_refl (a ∷ as_) = let rest = str_eq_refl as_ in ground arith

pub strings-IsKey : IsKey str_eq hash1
strings-IsKey = (
  str_eq_refl,
  (λ k x y h h'. rw (sym (str_eq-eq k x h), sym (str_eq-eq k y h')) (str_eq_refl k)),
  (λ k k' h. ap hash1 (str_eq-eq k k' h)),
)

module _ {V : Type 0} where
  item_of-none :
      (o : Option (Node (List ℕ) V)) → some (item_of str_eq hash1 o) ≡ some none → o ≡ none
  item_of-none none h = refl
  item_of-none (some n) h = cc

  some-if :
      (b : Bool) (v : V) (x : Option V) (y : Option (Option V))
      → y ≡ some x
      → some (if b then some v else x) ≡ (if b then some (some v) else y)
  some-if true v x y h = refl
  some-if false v x y h = sym h

  -- `dictInsert` into a well-formed dictionary of a key that dictGet does not find succeeds and leaves a
  -- well-formed dictionary, in which dictGet finds the new value under an equal string and under every
  -- other string what it found before.
  pub dict_get-dict_insert :
      (d : Map (List ℕ) V) (k k' : List ℕ) (v : V)
      → IsMap str_eq hash1 d
      → dict_get d k ≡ some none
      → (d' : Map (List ℕ) V) × (dict_insert d k v ≡ some d')
        × IsMap str_eq hash1 d'
        × (dict_get d' k' ≡ (if str_eq k' k then some (some v) else dict_get d k'))
  unfolding dict_get dict_insert
  dict_get-dict_insert d k k' v inv h =
      let view = λ (k : List ℕ). (map_get-held str_eq hash1 strings-IsKey.2 d k inv).0 in
      let none_there = item_of-none (assoc str_eq hash1 k d.nodes) (sym (view k) ∙ h) in
      let (d', run, inv', holds) =
        map_insert-IsMap str_eq hash1 d k v strings-IsKey inv none_there in
      let view' = (map_get-held str_eq hash1 strings-IsKey.2 d' k' inv').0 in
      (
        d',
        run,
        inv',
        view' ∙ (ap some (holds k') ∙ some-if (str_eq k' k) v (held str_eq hash1 d k') _ (view k')),
      )
