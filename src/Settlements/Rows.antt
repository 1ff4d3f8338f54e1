-- ===== src/Settlements/Rows.antt =====
-- Lemmas on tables: sums of columns, updates row by row, and distinct keys.
pub mod Weights
pub mod Pairs
pub mod Distinct
pub use Weights.{
  weigh, All, All-map, All-every, All-find, All-append, All-update, table_weight, sum_where-weight,
  weight-append, weight-update_same, weight-update_none,
}
pub use Pairs.{
  Pointwise, Pointwise-update, Pointwise-trans, weight-Pointwise, weight-Pointwise_le,
  Pointwise-get, get-append, All-Pointwise, Pointwise-map,
}
pub use Distinct.{
  AreDistinct, weight-update_one, AreDistinct-Pointwise, AreDistinct-append, only-found,
}
