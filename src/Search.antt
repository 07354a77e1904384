-- ===== src/Search.antt =====
-- `src/search`: the sorted tree of `tsearch`, and the searches in an array.
pub mod Order
pub mod SortedList
pub mod Tree
pub mod Array
pub mod Hash
