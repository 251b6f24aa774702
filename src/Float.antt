-- ===== src/Float.antt =====
-- Go's float64, which no file of the repository implements: the operations that the code uses and
-- the facts of IEEE 754 arithmetic that the proofs rest on. A value that is not `<=` itself is NaN.
-- Float/Fixed.antt is an instance that runs.
mod Defs
pub mod Fixed
pub use Defs.*
