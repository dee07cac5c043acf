-- ===== src/Value.antt =====
-- The Python values that evidence details and policy documents hold.
mod Defs
mod Compare
pub use Defs.{Value, null, bool, int, str, arr, tup, obj, Items, nil, cons, Fields, end, field}
unfoldable pub use Defs.{get_key, size_items, size_fields, strings, items_of}
unfoldable pub use Compare.{
  eq_value, eq_items, order_value, contains_value, len_value, as_int, hashable,
}
pub use Compare.{Bound, strict, loose}
