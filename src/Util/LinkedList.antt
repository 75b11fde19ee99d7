-- ===== src/Util/LinkedList.antt =====
-- src/util/list.c: singly linked lists, as the values of their cells in order. The functions relink
-- the cells, of which no two lists share any.
pub mod Sort
use kanana.Base.{
  ℕ, zero, suc, ◌+◌, ◌/◌, ◌≡◌, refl, Option, none, some, List, [], ◌∷◌, ◌++◌, Bool, true, false,
  ltb, ◌&&◌, not, if◌then◌else◌, length, take, drop,
}
use kanana.Base.Memory.{◌>>=◌}

module _ {ℓ} {A : Type ℓ} where
  -- `(*cmpfunc)(x,y)<=0`, and the loop that takes the lesser of the two heads, then what is left.
  unfoldable pub merge_loop : (A → A → Bool) → ℕ → List A → List A → Option (List A)
  merge_loop at_most fuel [] b = some b
  merge_loop at_most fuel (x ∷ a) [] = some (x ∷ a)
  merge_loop at_most zero (x ∷ a) (y ∷ b) = none
  merge_loop at_most (suc fuel) (x ∷ a) (y ∷ b) =
      let first : Bool = at_most x y in
      do
        rest ← merge_loop at_most fuel (if first then a else x ∷ a) (if first then y ∷ b else b)
        some ((if first then x else y) ∷ rest)

  unfoldable pub merge_sorted_lists : (A → A → Bool) → List A → List A → Option (List A)
  merge_sorted_lists at_most a b = merge_loop at_most (length a + length b) a b

  unfoldable pub sort_loop : (A → A → Bool) → ℕ → List A → Option (List A)
  sort_loop at_most zero lst = none
  sort_loop at_most (suc fuel) lst =
      let halflen = length lst / 2 in
      let sorted = (do
        a ← sort_loop at_most fuel (take halflen lst)
        b ← sort_loop at_most fuel (drop halflen lst)
        merge_sorted_lists at_most a b) in
      if ltb halflen 1 then some lst else sorted

  unfoldable pub sort_list : (A → A → Bool) → List A → Option (List A)
  sort_list at_most lst = sort_loop at_most (suc (length lst)) lst

  unfoldable pub list_length : List A → ℕ
  list_length [] = 0
  list_length (x ∷ lst) = list_length lst + 1

  -- `concatLists`, with whether the ends are given. Without the end of the first list the code makes
  -- its start the end, and walks from the end of the second, which is NULL if it is not given.
  unfoldable pub concat_lists : List A → Bool → List A → Bool → Option (List A)
  concat_lists [] end1 l2 end2 = some l2
  concat_lists (x ∷ l1) true l2 end2 = some ((x ∷ l1) ++ l2)
  concat_lists (x ∷ l1) false [] end2 = none
  concat_lists (x ∷ l1) false (y ∷ l2) false = none
  concat_lists (x ∷ l1) false (y ∷ l2) true = some (x ∷ y ∷ l2)
