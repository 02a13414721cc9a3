-- ===== src/Memory/Pmm/View.antt =====
-- The bitmap of kernel/src/memory/pmm.rs as a function from frames to whether they are free.
use vibra.Common.{ℕ, zero, suc, ◌*◌, ◌/◌, ◌%◌, ◌<◌, ◌≡◌, refl, List, [], ◌∷◌, true, false}
use vibra.Common.{arith, length, get_or, set, AllAt, AllAt-set, length-set, ◌==◌, if◌then◌else◌}
use vibra.Memory.Bits.{
  raise_bit, lower_bit, bit_clear-raise_bit, bit_clear-lower_bit, raise_bit-lt, lower_bit-lt,
}
use vibra.Memory.Pmm.{byte_of, is_frame_free, set_frame_used, set_frame_free}

-- A bitmap of `max_frames` frames, in bytes.
pub record IsBitmap (max_frames : ℕ) (bitmap : List ℕ) : Type 0 where
  pub sized : length bitmap * 8 ≡ max_frames
  pub bytes : AllAt (λ i b. b < 256) bitmap

get_or-set :
    (xs : List ℕ) (i j v d : ℕ)
    → i < length xs
    → get_or (set xs i v) j d ≡ (if i == j then v else get_or xs j d)
get_or-set [] i j v d h = absurd (omega arith)
get_or-set (x ∷ xs) zero zero v d h = refl
get_or-set (x ∷ xs) zero (suc j) v d h = ground arith
get_or-set (x ∷ xs) (suc i) zero v d h = ground arith
get_or-set (x ∷ xs) (suc i) (suc j) v d h = ground (arith, get_or-set xs i j v d)

get_or-lt : (xs : List ℕ) (i d n : ℕ) → d < n → AllAt (λ k b. b < n) xs → get_or xs i d < n
get_or-lt [] i d n h all = h
get_or-lt (x ∷ xs) zero d n h all = all 0 x refl
get_or-lt (x ∷ xs) (suc i) d n h all = get_or-lt xs i d n h (λ k b e. all (suc k) b e)

module _ (max_frames : ℕ) (bitmap : List ℕ) (h : IsBitmap max_frames bitmap) where
  byte_of-lt : (i : ℕ) → byte_of bitmap i < 256
  unfolding byte_of
  byte_of-lt i = get_or-lt bitmap (i / 8) 0xff 256 (omega arith) h.bytes

  in_bytes : (i : ℕ) → i < max_frames → i / 8 < length bitmap
  in_bytes i lt = omega (arith, h.sized)

  pub set_frame_used-IsBitmap : (i : ℕ) → IsBitmap max_frames (set_frame_used bitmap i)
  unfolding set_frame_used
  set_frame_used-IsBitmap i = record {
    sized = rw length-set h.sized;
    bytes =
        AllAt-set _ bitmap (i / 8) _
          (raise_bit-lt _ (i % 8) 0 (byte_of-lt i) (omega arith) (omega arith))
          (λ k b _ e. h.bytes k b e);
  }

  pub set_frame_free-IsBitmap : (i : ℕ) → IsBitmap max_frames (set_frame_free bitmap i)
  unfolding set_frame_free
  set_frame_free-IsBitmap i = record {
    sized = rw length-set h.sized;
    bytes =
        AllAt-set _ bitmap (i / 8) _
          (lower_bit-lt _ (i % 8) 0 (byte_of-lt i) (omega arith) (omega arith))
          (λ k b _ e. h.bytes k b e);
  }

  -- Marking a frame used changes what is read of that frame and of no other.
  pub is_frame_free-set_used :
      (i j : ℕ)
      → i < max_frames
      → is_frame_free (set_frame_used bitmap i) j
        ≡ (if i == j then false else is_frame_free bitmap j)
  unfolding is_frame_free set_frame_used
  is_frame_free-set_used i j lt = ground (
    arith,
    get_or-set bitmap (i / 8) (j / 8) (raise_bit (byte_of bitmap i) (i % 8)) 0xff,
    in_bytes i lt,
    bit_clear-raise_bit (byte_of bitmap i) (i % 8) (j % 8),
    byte_of-lt i,
  )

  pub is_frame_free-set_free :
      (i j : ℕ)
      → i < max_frames
      → is_frame_free (set_frame_free bitmap i) j
        ≡ (if i == j then true else is_frame_free bitmap j)
  unfolding is_frame_free set_frame_free
  is_frame_free-set_free i j lt = ground (
    arith,
    get_or-set bitmap (i / 8) (j / 8) (lower_bit (byte_of bitmap i) (i % 8)) 0xff,
    in_bytes i lt,
    bit_clear-lower_bit (byte_of bitmap i) (i % 8) (j % 8),
    byte_of-lt i,
  )
