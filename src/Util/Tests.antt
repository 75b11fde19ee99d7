-- ===== src/Util/Tests.antt =====
-- The theorems on the containers of src/util at concrete inputs.
use mathlib.Core.List.{Perm}
use kanana.Base.{
  ℕ, zero, suc, ◌<◌, ◌≡◌, inl, inr, refl, arith, none, some, List, [], ◌∷◌, ◌++◌, true, false, leb,
  ◌==◌, if◌then◌else◌, get_elem?,
}
use kanana.Util.GrowingBuffer.{
  GrowingBuffer, add_to_growing_buffer, IsBuffer, add_to_growing_buffer-append,
}
use kanana.Util.Map.{
  Map, lookup, bucket_of, scan_from, map_create, map_insert, map_get, map_exists, map_remove,
  map_set,
}
use kanana.Util.Map.Chain.{IsKey, first}
use kanana.Util.Map.Lookup.{IsMap, held, map_get-held, map_remove-lookup}
use kanana.Util.Map.WellFormed.{map_create-IsMap, map_insert-IsMap}
use kanana.Util.Map.Overwrite.{map_set-IsMap}
use kanana.Util.Dictionary.Heads.{dict_duplicate}
use kanana.Util.Dictionary.Duplicate.{copied, dict_duplicate-IsMap}
use kanana.Util.Hash.{hash1, hash_chars, hash32_bit, hash64_bit}
use kanana.Util.Dictionary.{str_eq, dict_get, dict_insert, dict_get-dict_insert}
use kanana.Util.LinkedList.{sort_list, merge_sorted_lists, sort_loop, merge_loop, concat_lists}
use kanana.Util.LinkedList.Sort.{IsOrder, IsSorted, sort_list-IsSorted}

abbrev full : GrowingBuffer
full = record { bytes = 1 ∷ 2 ∷ []; allocated = 2 }

add_to_growing_buffer-append_example :
    (buf' : GrowingBuffer) × (add_to_growing_buffer full (3 ∷ []) ≡ some buf')
    × (buf'.bytes ≡ (1 ∷ 2 ∷ []) ++ 3 ∷ [])
    × IsBuffer buf'
add_to_growing_buffer-append_example = add_to_growing_buffer-append full (3 ∷ []) (omega arith)

leb-IsOrder : IsOrder leb
leb-IsOrder = record { total = λ x y h. ground arith; trans = λ x y z h h'. ground arith }

sort_numbers : sort_list leb (3 ∷ 1 ∷ 2 ∷ 1 ∷ []) ≡ some (1 ∷ 1 ∷ 2 ∷ 3 ∷ [])
unfolding sort_list sort_loop merge_sorted_lists merge_loop
sort_numbers = refl

concat_without_end : concat_lists {A = ℕ} (1 ∷ 2 ∷ []) false (3 ∷ []) true ≡ some (1 ∷ 3 ∷ [])
unfolding concat_lists
concat_without_end = refl

sort_list-IsSorted_example :
    (out : List ℕ) × (sort_list leb (3 ∷ 1 ∷ 2 ∷ 1 ∷ []) ≡ some out)
    × IsSorted leb out
    × Perm out (3 ∷ 1 ∷ 2 ∷ 1 ∷ [])
sort_list-IsSorted_example = sort_list-IsSorted leb leb-IsOrder (3 ∷ 1 ∷ 2 ∷ 1 ∷ [])

-- Numbers as their own hashes, in four buckets: 3 and 7 share one.
abbrev id : ℕ → ℕ
id k = k

abbrev table : Map ℕ ℕ
table = record {
  heads = none ∷ none ∷ some 1 ∷ some 0 ∷ [];
  nodes =
      record { addr = 0; key = 3; item = 30; bucket = 3 }
      ∷ record { addr = 2; key = 7; item = 70; bucket = 3 }
      ∷ record { addr = 1; key = 2; item = 20; bucket = 2 }
      ∷ [];
  size = 3;
  fresh = 3;
}

numbers-IsKey : IsKey ◌==◌ id
numbers-IsKey = ((λ k. ground arith), (λ k x y h h'. ground arith), λ k k' h. ground arith)

pointers : (b : ℕ) → b < 4 → get_elem? table.heads b ≡ some (first b table.nodes)
pointers zero h = refl
pointers (suc zero) h = refl
pointers (suc (suc zero)) h = refl
pointers (suc (suc (suc zero))) h = refl
pointers (suc (suc (suc (suc b)))) h = absurd (omega arith)

table-IsMap : IsMap ◌==◌ id table
table-IsMap = (
  omega arith,
  pointers,
  omega arith,
  (inl refl, (inr (omega arith), (tt, tt))),
  ((omega arith), ((omega arith), (tt, tt))),
  omega arith,
  refl,
)

map_get-held_example :
    (map_get ◌==◌ id table 7 ≡ some (some 70)) × (map_exists ◌==◌ id table 7 ≡ some true)
map_get-held_example = map_get-held ◌==◌ id numbers-IsKey.2 table 7 table-IsMap

map_insert-IsMap_example :
    (m : Map ℕ ℕ) × (map_insert ◌==◌ id table 11 110 ≡ some m)
    × IsMap ◌==◌ id m
    × ((k : ℕ) → held ◌==◌ id m k ≡ (if k == 11 then some 110 else held ◌==◌ id table k))
map_insert-IsMap_example = map_insert-IsMap ◌==◌ id table 11 110 numbers-IsKey table-IsMap refl

map_set-IsMap_example :
    (m : Map ℕ ℕ) × (map_set ◌==◌ id table 7 71 ≡ some m)
    × IsMap ◌==◌ id m
    × ((k : ℕ) → held ◌==◌ id m k ≡ (if k == 7 then some 71 else held ◌==◌ id table k))
map_set-IsMap_example = map_set-IsMap ◌==◌ id table 7 71 numbers-IsKey table-IsMap

dict_duplicate-IsMap_example :
    (m : Map ℕ ℕ) × (dict_duplicate suc table ≡ some m)
    × IsMap ◌==◌ id m
    × ((k : ℕ) → held ◌==◌ id m k ≡ copied suc (held ◌==◌ id table k))
dict_duplicate-IsMap_example = dict_duplicate-IsMap ◌==◌ id suc table table-IsMap

-- The removal of 11, which is not there, takes 3 away and leaves 7 behind a freed node.
map_remove-lookup_example :
    (m : Map ℕ ℕ) × (map_remove ◌==◌ id table 11 ≡ some (m, true))
    × (m.size ≡ 2)
    × (lookup ◌==◌ id m 7 ≡ none)
map_remove-lookup_example = map_remove-lookup ◌==◌ id table 11 7 0 table-IsMap refl refl

-- "ab", whose hash is 5381 * 33 * 33 + 97 * 33 + 98.
hash_of_ab : hash1 (97 ∷ 98 ∷ []) ≡ 5863208
unfolding hash1 hash_chars
hash_of_ab = refl

hash32_of_zero : hash32_bit 0 ≡ 3399731875
unfolding hash32_bit
hash32_of_zero = refl

hash64_of_one : hash64_bit 1 ≡ 6614235796240398542
unfolding hash64_bit
hash64_of_one = refl

abbrev empty_dict : Map (List ℕ) ℕ
empty_dict = map_create str_eq hash1 2

empty_dict_misses : dict_get empty_dict (97 ∷ []) ≡ some none
unfolding dict_get map_get map_create lookup bucket_of scan_from hash1 hash_chars
empty_dict_misses = refl

dict_get-dict_insert_example :
    (d : Map (List ℕ) ℕ) × (dict_insert empty_dict (97 ∷ []) 5 ≡ some d)
    × IsMap str_eq hash1 d
    × (dict_get d (98 ∷ [])
        ≡ (if str_eq (98 ∷ []) (97 ∷ []) then some (some 5) else dict_get empty_dict (98 ∷ [])))
dict_get-dict_insert_example =
    dict_get-dict_insert empty_dict (97 ∷ []) (98 ∷ []) 5
      (map_create-IsMap str_eq hash1 2 (omega arith)).0 empty_dict_misses
