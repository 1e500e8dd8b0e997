-- ===== src/Catalogue/Variants.antt =====
-- backend/src/products/service.py: `create_variant`, `update_variant`, `deactivate_variant`.
use text.Mathlib.Text.{◌==◌ as str_eq}
use modishlog.Prelude.{
  ℕ, suc, Bool, true, false, not, ◌&&◌, Option, none, some, List, [], ◌∷◌, ◌++◌, String, length,
  ◌==◌, if◌then◌else◌, find, modify, where_, is_some, or_else,
}
use modishlog.Sales.Model.{ProductVariant}
use modishlog.Store.{
  Store, Service, pure, gets, expect, raise_if, modify_store, when, ◌>>=◌, ◌>>◌, variant_not_found,
  duplicate_sku,
}
use modishlog.Catalogue.{get_product, change_product}

-- `ProductVariantCreate`
pub record VariantCreate : Type 0 where
  pub name : String
  pub sku : Option String
  pub barcode : Option String
  pub price_override : Option ℕ
  pub cost_price_override : Option ℕ

-- `text or None`
abbrev pub or_null : Option String → Option String
or_null none = none
or_null (some t) = if str_eq t "" then none else some t

abbrev pub has_sku : String → ℕ → ProductVariant → Bool
has_sku sku business_id v =
    (v.business_id == business_id) && elim v.sku [ none ↦ false | some t ↦ str_eq t sku ]

unfoldable pub check_sku : Option String → ℕ → Service (Unit {0})
check_sku none business_id = pure tt
check_sku (some sku) business_id = do
  taken ← gets (λ s. is_some (find (has_sku sku business_id) s.variants))
  raise_if taken (duplicate_sku sku)

abbrev pub variant_of : VariantCreate → ℕ → ℕ → ℕ → ProductVariant
variant_of d product_id business_id id = record {
  id = id;
  product_id = product_id;
  business_id = business_id;
  name = d.name;
  sku = or_null d.sku;
  barcode = or_null d.barcode;
  is_active = true;
  price_override = d.price_override;
  cost_price_override = d.cost_price_override;
}

unfoldable pub create_variant : ℕ → VariantCreate → ℕ → Service ℕ
unfolding get_product check_sku
create_variant product_id d business_id = do
  product ← get_product product_id (some business_id)
  check_sku (or_null d.sku) business_id
  id ← gets (λ s. s.next_id)
  modify_store (λ s. record s {
    variants = s.variants ++ (variant_of d product_id business_id s.next_id ∷ []);
    next_id = suc s.next_id;
  })
  modify_store (change_product product.id (λ p. record p { has_variants = true }))
  pure id

-- The keys that a variant's update sets, with their values; a column that may be NULL can be set to it.
pub record VariantUpdate : Type 0 where
  pub name : Option String
  pub sku : Option (Option String)
  pub barcode : Option (Option String)
  pub price_override : Option (Option ℕ)
  pub cost_price_override : Option (Option ℕ)
  pub is_active : Option Bool

-- A text that is given, where "" stands for NULL.
abbrev pub given_text : Option (Option String) → Option String → Option String
given_text none old = old
given_text (some t) old = or_null t

abbrev pub updated_variant : VariantUpdate → ProductVariant → ProductVariant
updated_variant d v = record v {
  name = or_else d.name v.name;
  sku = given_text d.sku v.sku;
  barcode = given_text d.barcode v.barcode;
  price_override = or_else d.price_override v.price_override;
  cost_price_override = or_else d.cost_price_override v.cost_price_override;
  is_active = or_else d.is_active v.is_active;
}

abbrev pub is_variant : ℕ → ℕ → ℕ → ProductVariant → Bool
is_variant variant_id product_id business_id v =
    (v.id == variant_id) && ((v.product_id == product_id) && (v.business_id == business_id))

abbrev pub active_variants : ℕ → List ProductVariant → ℕ
active_variants product_id vs =
    length (where_ (λ (v : ProductVariant). (v.product_id == product_id) && v.is_active) vs)

-- `has_variants` taken back where no active variant remains.
unfoldable pub reset_has_variants : ℕ → Store → Store
reset_has_variants product_id s =
    if active_variants product_id s.variants == 0
    then change_product product_id (λ p. record p { has_variants = false }) s
    else s

abbrev pub change_variant : ℕ → (ProductVariant → ProductVariant) → Store → Store
change_variant i f s = record s {
  variants = modify (λ (v : ProductVariant). v.id == i) f s.variants;
}

unfoldable pub update_variant : ℕ → ℕ → VariantUpdate → ℕ → Service (Unit {0})
update_variant product_id variant_id d business_id = do
  found ← gets (λ s. find (is_variant variant_id product_id business_id) s.variants)
  variant ← expect found variant_not_found
  modify_store (change_variant variant.id (updated_variant d))
  when (not (or_else d.is_active true)) (modify_store (reset_has_variants variant.product_id))

unfoldable pub deactivate_variant : ℕ → ℕ → ℕ → Service (Unit {0})
deactivate_variant product_id variant_id business_id = do
  found ← gets (λ s. find (is_variant variant_id product_id business_id) s.variants)
  variant ← expect found variant_not_found
  modify_store (change_variant variant.id (λ v. record v { is_active = false }))
  modify_store (reset_has_variants variant.product_id)
