-- ===== src/Memory/Bits.antt =====
-- The bits of a byte of the frame bitmap, kernel/src/memory/pmm.rs: their laws, by a table of every
-- byte and every pair of bits.
use vibra.Common.{ℕ, ◌-◌, ◌^◌, ◌<◌, ◌≡◌, refl, Bool, true, false, ◌&&◌, arith, bit_and, bit_or}
use vibra.Common.{passes, read_table, ◌==◌, ltb, if◌then◌else◌}

-- `byte & (1 << i) == 0`.
unfoldable pub bit_clear : ℕ → ℕ → Bool
bit_clear byte i = bit_and byte (2 ^ i) == 0

-- `byte | (1 << i)`.
unfoldable pub raise_bit : ℕ → ℕ → ℕ
raise_bit byte i = bit_or byte (2 ^ i)

-- `byte & !(1 << i)` on `u8`.
unfoldable pub lower_bit : ℕ → ℕ → ℕ
lower_bit byte i = bit_and byte (255 - 2 ^ i)

abbrev bool_eq : Bool → Bool → Bool
bool_eq true b = b
bool_eq false true = false
bool_eq false false = true

abbrev bit_law : ℕ → ℕ → ℕ → Bool
bit_law b i j =
    bool_eq (bit_clear (raise_bit b i) j) (if i == j then false else bit_clear b j)
    && bool_eq (bit_clear (lower_bit b i) j) (if i == j then true else bit_clear b j)
    && ltb (raise_bit b i) 256
    && ltb (lower_bit b i) 256

bit_table : passes (λ b. passes (λ i. passes (λ j. bit_law b i j) 0 8) 0 8) 0 256 ≡ true
unfolding passes bit_clear raise_bit lower_bit
bit_table = refl

bit_law_holds : (b i j : ℕ) → b < 256 → i < 8 → j < 8 → bit_law b i j ≡ true
bit_law_holds b i j hb hi hj =
    read_table 8 _ (read_table 8 _ (read_table 256 _ bit_table b hb) i hi) j hj

module _ (b i j : ℕ) (hb : b < 256) (hi : i < 8) (hj : j < 8) where
  pub bit_clear-raise_bit : bit_clear (raise_bit b i) j ≡ (if i == j then false else bit_clear b j)
  bit_clear-raise_bit = ground (arith, bit_law_holds b i j hb hi hj)

  pub bit_clear-lower_bit : bit_clear (lower_bit b i) j ≡ (if i == j then true else bit_clear b j)
  bit_clear-lower_bit = ground (arith, bit_law_holds b i j hb hi hj)

  pub raise_bit-lt : raise_bit b i < 256
  raise_bit-lt = ground (arith, bit_law_holds b i j hb hi hj)

  pub lower_bit-lt : lower_bit b i < 256
  lower_bit-lt = ground (arith, bit_law_holds b i j hb hi hj)

full_table : passes (λ i. bool_eq (bit_clear 0xff i) false) 0 8 ≡ true
unfolding passes bit_clear
full_table = refl

-- A full byte has no clear bit.
pub bit_clear_full : (i : ℕ) → i < 8 → bit_clear 0xff i ≡ false
bit_clear_full i h =
    ground (arith, read_table 8 (λ (k : ℕ). bool_eq (bit_clear 0xff k) false) full_table i h)
