-- ===== src/Types/After.antt =====
-- What a comparison of types in src/patchwrite/typediff.c leaves as it was in the store.
use kanana.Base.{
  ℕ, zero, suc, ◌+◌, ◌≤◌, ◌≡◌, refl, sym, ap, ◌∙◌, ◌⊎◌, inl, inr, arith, Option, none, some, [],
  ◌∷◌, length, get_elem?,
}
use kanana.Types.{TypediffStatus, Transformer, TypeInfo, Store}
use kanana.Types.Compare.{modify, set_against, set_status, set_transformer}

-- The types that have not been compared to another.
abbrev is_open : Option ℕ → ℕ
is_open none = 1
is_open (some b) = 0

abbrev pub open_types : Store → ℕ
open_types [] = 0
open_types (t ∷ s) = is_open t.diff_against + open_types s

pub open_types-le : (s : Store) → open_types s ≤ length s
open_types-le [] = omega arith
open_types-le (t ∷ s) = elim t.diff_against as (λ d. is_open d + open_types s ≤ suc (length s)) [
  | none ↦ omega (arith, open_types-le s)
  | some b ↦ omega (arith, open_types-le s)
]

modify-kept :
    (s : Store) (i : ℕ) (f : TypeInfo → TypeInfo)
    → ((t : TypeInfo) → (f t).diff_against ≡ t.diff_against)
    → open_types (modify s i f) ≡ open_types s
unfolding modify
modify-kept [] i f h = refl
modify-kept (t ∷ s) zero f h = ap (λ d. is_open d + open_types s) (h t)
modify-kept (t ∷ s) (suc i) f h = ap (λ n. is_open t.diff_against + n) (modify-kept s i f h)

pub status-kept :
    (s : Store) (i : ℕ) (st : TypediffStatus)
    → open_types (modify s i (set_status st)) ≡ open_types s
status-kept s i st = modify-kept s i (set_status st) (λ t. refl)

pub modify-against :
    (s : Store) (i b : ℕ) (t : TypeInfo)
    → get_elem? s i ≡ some t
    → t.diff_against ≡ none
    → suc (open_types (modify s i (set_against b))) ≡ open_types s
unfolding modify
modify-against [] i b t h e = absurd cc
modify-against (u ∷ s) zero b t h e =
    let unchanged : u.diff_against ≡ none = ap TypeInfo.diff_against (some-injective h) ∙ e in
    ap (λ d. suc (is_open (some b) + open_types s)) unchanged
    ∙ (omega arith ∙ ap (λ d. is_open d + open_types s) (sym unchanged))
  where
    some-injective : some u ≡ some t → u ≡ t
    some-injective e' = cc
modify-against (u ∷ s) (suc i) b t h e =
    let rest = modify-against s i b t h e in omega (arith, rest)

pub get-modify :
    (s : Store) (i : ℕ) (f : TypeInfo → TypeInfo) (t : TypeInfo)
    → get_elem? s i ≡ some t
    → get_elem? (modify s i f) i ≡ some (f t)
unfolding modify
get-modify [] i f t h = absurd cc
get-modify (u ∷ s) zero f t h =
    ap (λ o. elim o as (λ _. Option TypeInfo) [ none ↦ none | some v ↦ some (f v) ]) h
get-modify (u ∷ s) (suc i) f t h = get-modify s i f t h

get-modify-cases :
    (s : Store) (i j : ℕ) (f : TypeInfo → TypeInfo) (t : TypeInfo)
    → get_elem? s j ≡ some t
    → (get_elem? (modify s i f) j ≡ some t) ⊎ ((i ≡ j) × (get_elem? (modify s i f) j ≡ some (f t)))
unfolding modify
get-modify-cases [] i j f t h = absurd cc
get-modify-cases (u ∷ s) zero zero f t h = inr (refl, get-modify (u ∷ s) zero f t h)
get-modify-cases (u ∷ s) zero (suc j) f t h = inl h
get-modify-cases (u ∷ s) (suc i) zero f t h = inl h
get-modify-cases (u ∷ s) (suc i) (suc j) f t h = elim (get-modify-cases s i j f t h) [
  | inl e ↦ inl e
  | inr (e, at) ↦ inr (ap suc e, at)
]

-- A type keeps its kind, and what it was compared to and how that ended once it was compared.
pub record Kept (t t' : TypeInfo) : Type 0 where
  pub same_type : t'.type ≡ t.type
  pub same_against : (c : ℕ) → t.diff_against ≡ some c → t'.diff_against ≡ some c
  pub same_status : (c : ℕ) → t.diff_against ≡ some c → t'.typediff_status ≡ t.typediff_status

pub record After (s s' : Store) : Type 0 where
  pub fewer : open_types s' ≤ open_types s
  pub settled :
      (i : ℕ) (t : TypeInfo)
      → get_elem? s i ≡ some t
      → (t' : TypeInfo) × (get_elem? s' i ≡ some t') × Kept t t'

pub After-refl : (s : Store) → After s s
After-refl s = record {
  fewer = omega arith;
  settled = λ i t at.
      (t, at, record { same_type = refl; same_against = λ c h. h; same_status = λ c h. refl });
}

pub After-trans : {s s' s'' : Store} → After s s' → After s' s'' → After s s''
After-trans h h' = record {
  fewer = omega (arith, h.fewer, h'.fewer);
  settled = λ i t at.
      let (t', at', k) = h.settled i t at in
      let (t'', at'', k') = h'.settled i t' at' in
      (
        t'',
        at'',
        record {
          same_type = k'.same_type ∙ k.same_type;
          same_against = λ c e. k'.same_against c (k.same_against c e);
          same_status = λ c e. k'.same_status c (k.same_against c e) ∙ k.same_status c e;
        },
      );
}

pub After-transformer :
    {s s' : Store} (i : ℕ) (tr : Transformer)
    → After s s'
    → After s (modify s' i (set_transformer tr))
After-transformer {s' = s'} i tr h = record {
  fewer = omega (arith, h.fewer, modify-kept s' i (set_transformer tr) (λ t. refl));
  settled = λ j t at.
      let (t', at', k) = h.settled j t at in
      elim (get-modify-cases s' i j (set_transformer tr) t' at') [
        | inl e ↦ (t', e, k)
        | inr (same_place, e) ↦ (
          set_transformer tr t',
          e,
          record {
            same_type = k.same_type;
            same_against = k.same_against;
            same_status = k.same_status;
          },
        )
      ];
}

-- A type that was not compared before may get any fields but another kind.
own-settled :
    {s s' : Store} (i : ℕ) (f : TypeInfo → TypeInfo) (t : TypeInfo)
    → get_elem? s i ≡ some t
    → t.diff_against ≡ none
    → ((u : TypeInfo) → (f u).type ≡ u.type)
    → After s s'
    → (j : ℕ) (u : TypeInfo) → get_elem? s j ≡ some u
    → (u' : TypeInfo) × (get_elem? (modify s' i f) j ≡ some u') × Kept u u'
own-settled {s = s} {s' = s'} i f t at unopened same_type h j u at_j =
    let (u', at', k) = h.settled j u at_j in
    elim (get-modify-cases s' i j f u' at') [
      | inl e ↦ (u', e, k)
      | inr (same_place, e) ↦
          let same : t ≡ u = some-injective (sym at ∙ (ap (get_elem? s) same_place ∙ at_j)) in
          let none_against : u.diff_against ≡ none =
            ap TypeInfo.diff_against (sym same) ∙ unopened in
          (
            f u',
            e,
            record {
              same_type = same_type u' ∙ k.same_type;
              same_against = λ c e'. absurd (none-some (sym none_against ∙ e'));
              same_status = λ c e'. absurd (none-some (sym none_against ∙ e'));
            },
          )
    ]
  where
    some-injective : {x y : TypeInfo} → some x ≡ some y → x ≡ y
    some-injective e' = cc

    none-some : {c : ℕ} → none ≡ some c → ⊥
    none-some e' = absurd cc

pub After-status :
    {s s' : Store} (i : ℕ) (st : TypediffStatus) (t : TypeInfo)
    → get_elem? s i ≡ some t
    → t.diff_against ≡ none
    → After s s'
    → After s (modify s' i (set_status st))
After-status {s' = s'} i st t at unopened h = record {
  fewer = omega (arith, h.fewer, status-kept s' i st);
  settled = own-settled i (set_status st) t at unopened (λ u. refl) h;
}

pub After-against :
    {s : Store} (i b : ℕ) (t : TypeInfo)
    → get_elem? s i ≡ some t
    → t.diff_against ≡ none
    → After s (modify s i (set_against b))
After-against {s = s} i b t at unopened = record {
  fewer = omega (arith, modify-against s i b t at unopened);
  settled = own-settled i (set_against b) t at unopened (λ u. refl) (After-refl s);
}
