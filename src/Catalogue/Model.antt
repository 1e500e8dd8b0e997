-- ===== src/Catalogue/Model.antt =====
-- backend/src/products/models.py: categories, and the labels of variants.
use modishlog.Prelude.{ℕ, Option, String}

pub record ProductCategory : Type 0 where
  pub id : ℕ
  pub business_id : ℕ
  pub name : String
  pub description : Option String
  pub parent_id : Option ℕ
  pub default_margin_pct : Option ℕ
