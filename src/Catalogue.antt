-- ===== src/Catalogue.antt =====
-- backend/src/products/service.py: categories, and the deactivation of products.
pub mod Model
pub mod Depth
pub mod Variants
use text.Mathlib.Text.{◌==◌ as str_eq}
use modishlog.Prelude.{
  ℕ, suc, Bool, true, false, not, ◌&&◌, Option, none, some, List, [], ◌∷◌, ◌++◌, String, length,
  ◌==◌, ltb, if◌then◌else◌, find, modify, where_, is_some, or_else, same_id,
}
use modishlog.Catalogue.Model.{ProductCategory}
use modishlog.Sales.Model.{Product, ProductVariant}
use modishlog.Store.{
  Store, Service, pure, gets, expect, raise_if, modify_store, when, ◌>>=◌, ◌>>◌, category_not_found,
  subcategory_depth, category_has_children, category_in_use, product_not_found, variant_not_found,
  duplicate_sku,
}

-- `CategoryCreate`
pub record CategoryCreate : Type 0 where
  pub name : String
  pub description : Option String
  pub parent_id : Option ℕ
  pub default_margin_pct : Option ℕ

abbrev pub has_key : ℕ → ProductCategory → Bool
has_key i c = c.id == i

abbrev pub is_child_of : ℕ → ProductCategory → Bool
is_child_of i c = same_id c.parent_id (some i)

unfoldable pub check_parent : Option ℕ → ℕ → Service (Unit {0})
check_parent none business_id = pure tt
check_parent (some parent_id) business_id = do
  found ← gets (λ s. find (has_key parent_id) s.categories)
  parent ← expect found (category_not_found parent_id)
  raise_if (not (parent.business_id == business_id)) (category_not_found parent_id)
  raise_if (is_some parent.parent_id) (subcategory_depth parent_id)

abbrev pub category_of : CategoryCreate → ℕ → ℕ → ProductCategory
category_of d business_id id = record {
  id = id;
  business_id = business_id;
  name = d.name;
  description = d.description;
  parent_id = d.parent_id;
  default_margin_pct = d.default_margin_pct;
}

abbrev pub insert_category : CategoryCreate → ℕ → Store → Store
insert_category d business_id s = record s {
  categories = s.categories ++ (category_of d business_id s.next_id ∷ []);
  next_id = suc s.next_id;
}

unfoldable pub create_category : CategoryCreate → ℕ → Service ℕ
create_category d business_id = do
  check_parent d.parent_id business_id
  id ← gets (λ s. s.next_id)
  modify_store (insert_category d business_id)
  pure id

-- Whether the category is the business's, where one is given.
abbrev pub is_foreign : Option ℕ → ProductCategory → Bool
is_foreign none c = false
is_foreign (some b) c = not (c.business_id == b)

unfoldable pub get_category : ℕ → Option ℕ → Service ProductCategory
get_category category_id business_id = do
  found ← gets (λ s. find (has_key category_id) s.categories)
  category ← expect found (category_not_found category_id)
  raise_if (is_foreign business_id category) (category_not_found category_id)
  pure category

unfoldable pub delete_category : ℕ → ℕ → Service (Unit {0})
delete_category category_id business_id = do
  category ← get_category category_id (some business_id)
  children ← gets (λ s. length (where_ (is_child_of category_id) s.categories))
  raise_if (ltb 0 children) (category_has_children category_id children)
  used ←
      gets (λ s.
        length (where_ (λ (p : Product). same_id p.category_id (some category_id)) s.products))
  raise_if (ltb 0 used) (category_in_use category_id used)
  modify_store (λ s. record s {
    categories = where_ (λ (c : ProductCategory). not (c.id == category.id)) s.categories;
  })

-- The fields that a `CategoryUpdate` sets, with their values.
pub record CategoryUpdate : Type 0 where
  pub name : Option String
  pub description : Option (Option String)
  pub default_margin_pct : Option (Option ℕ)

abbrev pub updated_category : CategoryUpdate → ProductCategory → ProductCategory
updated_category d c = record c {
  name = or_else d.name c.name;
  description = or_else d.description c.description;
  default_margin_pct = or_else d.default_margin_pct c.default_margin_pct;
}

unfoldable pub update_category : ℕ → CategoryUpdate → Option ℕ → Service (Unit {0})
update_category category_id d business_id = do
  category ← get_category category_id business_id
  modify_store (λ s. record s {
    categories = modify (has_key category.id) (updated_category d) s.categories;
  })

abbrev pub is_product : ℕ → Option ℕ → Product → Bool
is_product product_id none p = p.id == product_id
is_product product_id (some b) p = (p.id == product_id) && (p.business_id == b)

unfoldable pub get_product : ℕ → Option ℕ → Service Product
get_product product_id business_id = do
  found ← gets (λ s. find (is_product product_id business_id) s.products)
  expect found product_not_found

abbrev pub change_product : ℕ → (Product → Product) → Store → Store
change_product i f s = record s { products = modify (λ (p : Product). p.id == i) f s.products }

unfoldable pub deactivate_product : ℕ → Option ℕ → Service (Unit {0})
unfolding get_product
deactivate_product product_id business_id = do
  product ← get_product product_id business_id
  modify_store (change_product product.id (λ p. record p { is_active = false }))
