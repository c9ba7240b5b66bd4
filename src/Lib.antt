-- ===== src/Lib.antt =====
-- The field arithmetic, the scalar arithmetic, the points of the Edwards curve and two
-- multiplications of points by scalars of the crate solana-ed25519 (curve25519/solana-ed25519), in
-- its 64-bit serial backend. Two components hold numbers in limbs: FieldElement51, modulo p = 2^255
-- - 19, and Scalar52, modulo the order of the prime-order subgroup. On each of them stands a
-- component that the rest of the crate calls: the field operations of field.rs, and the scalars of
-- scalar.rs, which are arrays of 32 bytes that are unpacked into Scalar52 for each operation and
-- packed again. The points of the Edwards curve stand on the field operations. The multiplications
-- read the digit expansions of a scalar from the top, take multiples of a point from a table, and
-- add and double points.
--
-- Which file models which part:
--
-- - Common: the names that all modules share. Words: Rust's integers as natural numbers, every
--   operation with its wrap-around as in a release build. Bits: masks and disjoint ors as
--   arithmetic. Lists and Bytes: arrays as lists, an index out of range read as 0 (every index of
--   the code is in range), and the number that bytes stand for, lowest byte first. ConstantTime:
--   the interface Subtle, which stands for the crate subtle; Choice is Bool and CtOption is Option.
--   Congruence: congruence by a modulus and powers.
-- - Field51 and its children: curve25519/solana-ed25519/src/backend/serial/u64/field.rs. The record
--   FieldElement51 is [u64; 5]; `reduce`, `add`, `sub`, `negate`, `mul`, `pow2k`, `square`,
--   `square2`, `conditional_select`, `conditional_assign`, `conditional_swap`, `from_bytes` and
--   `to_bytes` carry the names of the code, and `mul_coefficients`, `carry_chain`,
--   `square_coefficients`, `square_round`, `square_rounds`, `quotient`, `canonical_limbs` and
--   `pack_limbs` are consecutive parts of their bodies. An operation that assigns to its target is
--   the function that returns the new target.
-- - Field and its children: curve25519/solana-ed25519/src/field.rs: `is_negative`, `is_zero`,
--   `ct_eq`, `pow22501`, `invert`, `pow_p58`, `sqrt_ratio_i` (with `candidate_root`, `flip_root`
--   and `nonnegative_root`), `invsqrt`, and in Wide `from_bytes_wide`.
-- - Scalar52 and its children: curve25519/solana-ed25519/src/backend/serial/u64/scalar.rs: the
--   conversions, `add`, `sub`, `conditional_add_l`, `shr1_assign`, `mul_internal`,
--   `square_internal`, `montgomery_reduce` (with `part1`, `part2` and `montgomery_quotient`),
--   `mul`, `square`, the Montgomery operations and conversions. The loops over five limbs are
--   written out (`borrow_loop`, `carry_loop`); the constants are those of
--   curve25519/solana-ed25519/src/backend/serial/u64/constants.rs.
-- - Scalar and its children: curve25519/solana-ed25519/src/scalar.rs: the ring operations,
--   `reduce`, `is_canonical`, `from_canonical_bytes`, the reductions of 32 and 64 bytes,
--   `clamp_integer`, `from_bits`, `div_by_2` and `invert` with its addition chain
--   `montgomery_invert`.
-- - Digits and its children: curve25519/solana-ed25519/src/scalar.rs: `read_le_u64_into`,
--   `as_radix_16`, `as_radix_2w` and `non_adjacent_form`. An i8 is its bit pattern, a number below
--   256; an array that the code fills from the front is the list of its entries.
-- - Heea and its children: curve25519/solana-ed25519/src/scalar/heea.rs. I256 is four limbs and a
--   sign; its operations carry the names of the code, with `add_limb`, `sub_limb`, `add_opposite`,
--   `shl_limbs` and `shl_bits` for parts of their bodies. Vartime holds `curve25519_heea_vartime`
--   with the turn of its loop (`combine` and `settle`), and `heea_decompose` of
--   curve25519/solana-ed25519/src/scalar.rs. Cofactors and Turn speak of signed numbers as
--   differences of two natural numbers, and Combine and Invariant bring the limbs to them.
-- - CurveModels: curve25519/solana-ed25519/src/backend/serial/curve_models.rs: the records of the
--   five kinds of coordinates (EdwardsPoint is that of edwards.rs), doubling, and the sums and
--   differences; a method of several types has the type in front of its name
--   (`completed_as_extended`, `projective_double`, `add_projective_niels`).
-- - Edwards and its children: curve25519/solana-ed25519/src/edwards.rs and edwards/affine.rs:
--   `edwards_add`, `edwards_sub`, `edwards_neg`, `edwards_double`, `mul_by_pow_2`, `edwards_ct_eq`,
--   `edwards_is_valid`, `compress` with `to_affine` and `affine_compress`, and `decompress` with
--   `step_1` and `step_2`, which leave out the coordinate Z, as it is always one. Points holds the
--   abstract view: coordinates stand for an affine point, two numbers modulo p, if they are its
--   numbers times a scale that has an inverse. IsOnCurve is the equation of the curve, and IsSum
--   the addition law with denominators that are not zero, an assumption of the theorems on sums;
--   Closure shows that the law keeps to the curve.
-- - Window and its children: curve25519/solana-ed25519/src/window.rs: `lookup_table` and `select`
--   of the radix-16 table over ProjectiveNielsPoint. An i16 is its bit pattern, and the loop of
--   `select` goes over the entries of the table. IsMultiples of Entries is a family of points that
--   behaves as the multiples of a point do; that every point of the curve has one, the group law of
--   the curve, is not proved here.
-- - VariableBase and its children:
--   curve25519/solana-ed25519/src/backend/serial/scalar_mul/variable_base.rs: `variable_base_mul`,
--   with `times_16` and `mul_loop` for the parts of its loop.
-- - BasepointTable and its children: the constant AFFINE_ODD_MULTIPLES_OF_BASEPOINT of
--   curve25519/solana-ed25519/src/backend/serial/u64/constants.rs, 64 entries in two halves;
--   Verified evaluates that each entry is the sum of the one before it and the double of the base
--   point.
-- - DoubleBase and its children:
--   curve25519/solana-ed25519/src/backend/serial/scalar_mul/vartime_double_base.rs as the feature
--   precomputed-tables, which is on by default, builds it: `vartime_double_base_mul`, which is
--   `double_base_mul` with the table of the base point, with `start_index`, `double_base_loop`,
--   `double_base_round`, and `by_sign` for the match on the sign of a digit. IsCombinations of
--   Window/Odd is to two points what IsMultiples is to one.
-- - Tests: runs at concrete inputs, among them the test vectors of field.rs.
--
-- The bounds are those of the code. A field element may have limbs up to 2^54 before a product, and
-- the `debug_assert!` lines that say so are hypotheses. The loop of `pow2k` recurs on its counter;
-- at 0, where the counter of the code wraps, the model runs 2^32 rounds. The loop of `mul_by_pow_2`
-- recurs on its counter in the same way, with 2^32 - 1 rounds before the last at 0. The loop of
-- `square_multiply` recurs on its counter, and the loop that reads a word on the bytes that are
-- left. The loop of `non_adjacent_form` recurs on 256 rounds: every round moves the position on,
-- and a round at or past position 256 changes nothing. The loop of `curve25519_heea_vartime` recurs
-- on 251 turns, which are enough for every input below the group order, as every turn makes the sum
-- of the two bit lengths smaller; with no fuel left the model has no result. The loops over the
-- digits in VariableBase and DoubleBase recur on the index, and an index out of range reads the
-- identity; every index of the code is in range.
--
-- The crate subtle is not part of the repository. A theorem on code that calls it holds for every
-- value of Subtle, whose laws say that a selection gives the chosen operand, that a swap exchanges
-- its operands if the choice is true, and that two arrays compare equal exactly if they are;
-- plain_subtle is a value that meets them.
--
-- Not modelled: the AVX2 backend, which is written in processor intrinsics; the Montgomery curve,
-- the prime-order group, the other scalar multiplications, the tables for them and the signatures;
-- hashing, serialisation and random generation, which call other crates; output for debugging and
-- the clearing of memory; the GPU bindings, the syscalls on other curves and the experimental proof
-- system.
pub mod Common
pub mod Field51
pub mod Field
pub mod Scalar52
pub mod Scalar
pub mod Digits
pub mod Heea
pub mod CurveModels
pub mod Edwards
pub mod Window
pub mod VariableBase
pub mod BasepointTable
pub mod DoubleBase
pub mod Tests
