-- ===== src/Sequence.antt =====
-- internal/fizzbuzz: the parameters and their validation, the size of the response, and its
-- generation.
pub mod Params
pub mod Divisor
pub mod Element
pub mod Size
pub mod Reference
pub mod Elements
pub mod Validate
pub mod Digits
pub mod Gen
pub mod Write
