-- ===== src/Record.antt =====
-- A line of the append log or of a snapshot (`AOFRecord` of core/store/store.go).
use torii_db.Base.{ℤ, Text, Option}

pub record Record : Type 0 where
  pub timestamp : ℤ
  pub command : Text
  pub key : Text
  pub value : Text
  pub expire_at : Option ℤ
  pub vector : Option Text
