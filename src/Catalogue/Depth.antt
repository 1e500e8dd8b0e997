-- ===== src/Catalogue/Depth.antt =====
-- The tree of categories stays two levels deep.
use modishlog.Prelude.{
  ℕ, ◌≡◌, refl, inl, inr, ◌⊎◌, false, not, Option, none, some, List, [], ◌∷◌, ◌++◌, ◌==◌, ltb,
  length, find, modify, where_, All, same_id, Bool-cases, Option-cases, arith, ==_iff, All-append,
  All-where_, find-passes,
}
use mathlib.Core.Option.{some-injective}
use modishlog.Sales.Model.{Product}
use modishlog.Catalogue.Model.{ProductCategory}
use modishlog.Catalogue.{
  CategoryCreate, has_key, is_child_of, check_parent, category_of, insert_category, create_category,
  is_foreign, get_category, delete_category, CategoryUpdate, updated_category, update_category,
}
use modishlog.Store.{
  Store, Error, ok, err, category_not_found, subcategory_depth, category_has_children,
  category_in_use,
}

-- A category is at the top, or its parent is there and at the top.
abbrev pub IsNested : List ProductCategory → ProductCategory → Type 0
IsNested cs c =
    (p : ℕ)
    → c.parent_id ≡ some p
    → (d : ProductCategory) × (find (has_key p) cs ≡ some d) × (d.parent_id ≡ none)

-- Every category is nested in that way.
pub record IsShallow (s : Store) : Type 0 where
  pub nested : All (IsNested s.categories) s.categories

map-All :
    {A : Type 0} (P Q : A → Type 0) (xs : List A) → ((x : A) → P x → Q x) → All P xs → All Q xs
map-All P Q [] f h = tt
map-All P Q (x ∷ xs) f h = (f x h.0, map-All P Q xs f h.1)

still_found :
    (p : ℕ) (cs : List ProductCategory) (c d : ProductCategory)
    → find (has_key p) cs ≡ some d
    → find (has_key p) (cs ++ (c ∷ [])) ≡ some d
still_found p [] c d e = absurd cc
still_found p (x ∷ cs) c d e = elim (Bool-cases (has_key p x)) [
  | inl hit ↦ rw hit (rw hit at e)
  | inr miss ↦ rw miss (still_found p cs c d (rw miss at e))
]

found_changed :
    (p i : ℕ) (u : CategoryUpdate) (cs : List ProductCategory) (d : ProductCategory)
    → find (has_key p) cs ≡ some d
    → d.parent_id ≡ none
    → (d' : ProductCategory) × (find (has_key p) (modify (has_key i) (updated_category u) cs)
        ≡ some d')
      × (d'.parent_id ≡ none)
found_changed p i u [] d e top = absurd cc
found_changed p i u (x ∷ cs) d e top = elim (Bool-cases (has_key p x)) [
  | inl hit ↦
      let same : x ≡ d = some-injective x d (rw hit at e) in
      let top' : x.parent_id ≡ none = rw same top in
      elim (Bool-cases (has_key i x)) [
        | inl at_ ↦ rw at_ (rw hit (updated_category u x, refl, top'))
        | inr other ↦ rw other (rw hit (x, refl, top'))
      ]
  | inr miss ↦
      let rest = found_changed p i u cs d (rw miss at e) top in
      elim (Bool-cases (has_key i x)) [
        | inl at_ ↦ rw at_ (rw miss rest)
        | inr other ↦ rw other (rw miss rest)
      ]
]

found_kept :
    (p i : ℕ) (cs : List ProductCategory) (d : ProductCategory)
    → (i == p) ≡ false
    → find (has_key p) cs ≡ some d
    → find (has_key p) (where_ (λ (c : ProductCategory). not (c.id == i)) cs) ≡ some d
found_kept p i [] d ne e = absurd cc
found_kept p i (x ∷ cs) d ne e = elim (Bool-cases (x.id == i)) [
  | inl gone ↦
      let miss : has_key p x ≡ false = ground arith in
      rw gone (found_kept p i cs d ne (rw miss at e))
  | inr stays ↦ elim (Bool-cases (has_key p x)) [
    | inl hit ↦ rw stays (rw hit (rw hit at e))
    | inr miss ↦ rw stays (rw miss (found_kept p i cs d ne (rw miss at e)))
  ]
]

check_parent-cases :
    (parent : Option ℕ) (b : ℕ) (s : Store)
    → ((e : Error) × (check_parent parent b s ≡ (err e, s)))
      ⊎ ((check_parent parent b s ≡ (ok tt, s))
          × ((p : ℕ)
              → parent ≡ some p
              → (d : ProductCategory) × (find (has_key p) s.categories ≡ some d)
                × (d.parent_id ≡ none)))
unfolding check_parent
check_parent-cases none b s = inr (refl, λ p e. absurd cc)
check_parent-cases (some i) b s = elim (Option-cases (find (has_key i) s.categories)) [
  | inl missing ↦ inl (category_not_found i, ground arith)
  | inr (d, found) ↦ elim (Bool-cases (d.business_id == b)) [
    | inr foreign ↦ inl (category_not_found i, ground arith)
    | inl own ↦ elim (Option-cases d.parent_id) [
      | inr (g, deep) ↦ inl (subcategory_depth i, ground arith)
      | inl top ↦ inr (
        ground arith,
        λ p e. let same : i ≡ p = some-injective i p e in (d, rw (← same) found, top),
      )
    ]
  ]
]

create_category-IsShallow :
    (d : CategoryCreate) (b : ℕ) (s : Store) → IsShallow s → IsShallow (create_category d b s).1
unfolding create_category
create_category-IsShallow d b s h = elim (check_parent-cases d.parent_id b s) [
  | inl (e, raised) ↦ let done : create_category d b s ≡ (err e, s) = ground arith in rw done h
  | inr (passed, parent) ↦
      let done : create_category d b s ≡ (ok s.next_id, insert_category d b s) = ground arith in
      let c = category_of d b s.next_id in
      let cs' = s.categories ++ (c ∷ []) in
      let wider : (x : ProductCategory) → IsNested s.categories x → IsNested cs' x =
        λ x n p e. let (q, found, top) = n p e in (q, still_found p s.categories c q found, top) in
      rw done (record {
        nested =
            All-append (IsNested cs') s.categories (c ∷ [])
              (map-All (IsNested s.categories) (IsNested cs') s.categories wider h.nested)
              (wider c parent, tt);
      })
]

get_category-cases :
    (i : ℕ) (b : Option ℕ) (s : Store)
    → ((e : Error) × (get_category i b s ≡ (err e, s)))
      ⊎ ((c : ProductCategory) × (find (has_key i) s.categories ≡ some c)
          × (get_category i b s ≡ (ok c, s)))
unfolding get_category
get_category-cases i b s = elim (Option-cases (find (has_key i) s.categories)) [
  | inl missing ↦ inl (category_not_found i, ground arith)
  | inr (c, found) ↦ elim (Bool-cases (is_foreign b c)) [
    | inl foreign ↦ inl (category_not_found i, ground arith)
    | inr own ↦ inr (c, found, ground arith)
  ]
]

updated-IsNested :
    (i : ℕ) (u : CategoryUpdate) (all cs : List ProductCategory)
    → All (IsNested all) cs
    → All
        (IsNested (modify (has_key i) (updated_category u) all))
        (modify (has_key i) (updated_category u) cs)
updated-IsNested i u all [] h = tt
updated-IsNested i u all (x ∷ cs) h =
    let n : (p : ℕ)
        → x.parent_id ≡ some p
        → (d : ProductCategory) × (find (has_key p) (modify (has_key i) (updated_category u) all)
            ≡ some d)
          × (d.parent_id ≡ none) =
      λ p e. let (d, found, top) = h.0 p e in found_changed p i u all d found top in
    let rest = updated-IsNested i u all cs h.1 in
    elim (Bool-cases (has_key i x)) [ inl at_ ↦ rw at_ (n, rest) | inr other ↦ rw other (n, rest) ]

update_category-IsShallow :
    (i : ℕ) (u : CategoryUpdate) (b : Option ℕ) (s : Store)
    → IsShallow s
    → IsShallow (update_category i u b s).1
unfolding update_category
update_category-IsShallow i u b s h = elim (get_category-cases i b s) [
  | inl (e, raised) ↦ let done : update_category i u b s ≡ (err e, s) = ground arith in rw done h
  | inr (c, found, passed) ↦
      let done : update_category i u b s ≡ (
        ok tt,
        record s { categories = modify (has_key c.id) (updated_category u) s.categories },
      ) =
        ground arith in
      rw done (record { nested = updated-IsNested c.id u s.categories s.categories h.nested })
]

no_children :
    (i : ℕ) (cs : List ProductCategory)
    → ltb 0 (length (where_ (is_child_of i) cs)) ≡ false
    → All (λ (c : ProductCategory). is_child_of i c ≡ false) cs
no_children i [] h = tt
no_children i (c ∷ cs) h = elim (Bool-cases (is_child_of i c)) [
  | inl child ↦ absurd (let some_ = rw child at h in ground arith)
  | inr other ↦ (other, no_children i cs (rw other at h))
]

-- What is left after a category without children is deleted.
left-IsNested :
    (i : ℕ) (all cs : List ProductCategory)
    → All (IsNested all) cs
    → All (λ (c : ProductCategory). is_child_of i c ≡ false) cs
    → All (IsNested (where_ (λ (c : ProductCategory). not (c.id == i)) all)) cs
left-IsNested i all [] h k = tt
left-IsNested i all (c ∷ cs) h k = (
  λ p e.
      let (d, found, top) = h.0 p e in
      let other : (i == p) ≡ false = apart i p c.parent_id e k.0 in
      (d, found_kept p i all d other found, top),
  left-IsNested i all cs h.1 k.1,
)
  where
    apart :
        (i p : ℕ) (parent : Option ℕ)
        → parent ≡ some p
        → same_id parent (some i) ≡ false
        → (i == p) ≡ false
    apart i p none e miss = absurd cc
    apart i p (some q) e miss = let same : q ≡ p = some-injective q p e in ground arith

delete_category-IsShallow :
    (i b : ℕ) (s : Store) → IsShallow s → IsShallow (delete_category i b s).1
unfolding delete_category
delete_category-IsShallow i b s h = elim (get_category-cases i (some b) s) [
  | inl (e, raised) ↦ let done : delete_category i b s ≡ (err e, s) = ground arith in rw done h
  | inr (c, found, passed) ↦
      let children = length (where_ (is_child_of i) s.categories) in
      let used = length (where_ (λ (p : Product). same_id p.category_id (some i)) s.products) in
      elim (Bool-cases (ltb 0 children)) [
        | inl has ↦
            let done : delete_category i b s ≡ (err (category_has_children i children), s) =
              ground arith in
            rw done h
        | inr leaf ↦ elim (Bool-cases (ltb 0 used)) [
          | inl in_use ↦
              let done : delete_category i b s ≡ (err (category_in_use i used), s) = ground arith in
              rw done h
          | inr free ↦
              let keep = λ (x : ProductCategory). not (x.id == c.id) in
              let done : delete_category i b s
                  ≡ (ok tt, record s { categories = where_ keep s.categories }) =
                ground arith in
              let same : c.id ≡ i =
                (==_iff c.id i).0 (find-passes (has_key i) s.categories c found) in
              rw done (record {
                nested = rw same (
                    All-where_
                      (IsNested (where_ (λ (x : ProductCategory). not (x.id == i)) s.categories))
                      (λ x. not (x.id == i)) s.categories
                      (left-IsNested i s.categories s.categories h.nested
                        (no_children i s.categories leaf)));
              })
        ]
      ]
]

-- A call on categories.
pub data CategoryCall : Store → Store → Type 0 where
  created : (d : CategoryCreate) (b : ℕ) (s : Store) → CategoryCall s (create_category d b s).1
  updated :
      (i : ℕ) (u : CategoryUpdate) (b : Option ℕ) (s : Store)
      → CategoryCall s (update_category i u b s).1
  deleted : (i b : ℕ) (s : Store) → CategoryCall s (delete_category i b s).1

-- Any number of calls on categories.
pub data CategoryCalls : Store → Store → Type 0 where
  start : {s : Store} → CategoryCalls s s
  call : {s s' s'' : Store} → CategoryCall s s' → CategoryCalls s' s'' → CategoryCalls s s''

CategoryCall-IsShallow : {s s' : Store} → CategoryCall s s' → IsShallow s → IsShallow s'
CategoryCall-IsShallow (created d b s) h = create_category-IsShallow d b s h
CategoryCall-IsShallow (updated i u b s) h = update_category-IsShallow i u b s h
CategoryCall-IsShallow (deleted i b s) h = delete_category-IsShallow i b s h

-- Whatever calls of `create_category`, `update_category` and `delete_category` are made, and however each
-- ends: if at first every category is at the top, or has a parent that exists and is at the top, then so
-- it is afterwards.
pub CategoryCalls-IsShallow : {s s' : Store} → CategoryCalls s s' → IsShallow s → IsShallow s'
CategoryCalls-IsShallow start h = h
CategoryCalls-IsShallow (call c cs) h = CategoryCalls-IsShallow cs (CategoryCall-IsShallow c h)
