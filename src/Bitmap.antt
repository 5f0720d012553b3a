-- ===== src/Bitmap.antt =====
-- include/bitmap.h: the sparse bit vector, a list of elements of 128 bits each in increasing order,
-- with a pointer to the element that was used last.
pub mod Element
pub mod Words
pub mod Merge
pub mod Vector
pub mod Chain
pub mod Places
pub mod Search
pub mod Laws
pub mod Algebra
pub mod Canonical
pub mod Disjoint
pub mod Iterator
pub mod Scan
pub mod Steps
pub mod Iterate
