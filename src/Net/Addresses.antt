-- ===== src/Net/Addresses.antt =====
-- The addresses of kernel/src/net, as lists of bytes of a fixed length.
use vibra.Common.{ℕ, List, [], ◌∷◌, ◌≡◌, refl, length, arith}

-- The bytes of an address, one at a time.
pub length-four : (xs : List ℕ) → length xs ≡ 4 → (a b c d : ℕ) × (xs ≡ a ∷ b ∷ c ∷ d ∷ [])
length-four [] h = absurd (omega arith)
length-four (a ∷ []) h = absurd (omega arith)
length-four (a ∷ b ∷ []) h = absurd (omega arith)
length-four (a ∷ b ∷ c ∷ []) h = absurd (omega arith)
length-four (a ∷ b ∷ c ∷ d ∷ []) h = (a, b, c, d, refl)
length-four (a ∷ b ∷ c ∷ d ∷ x ∷ rest) h = absurd (omega arith)

pub length-six :
    (xs : List ℕ) → length xs ≡ 6 → (a b c d e f : ℕ) × (xs ≡ a ∷ b ∷ c ∷ d ∷ e ∷ f ∷ [])
length-six [] h = absurd (omega arith)
length-six (a ∷ []) h = absurd (omega arith)
length-six (a ∷ b ∷ []) h = absurd (omega arith)
length-six (a ∷ b ∷ c ∷ []) h = absurd (omega arith)
length-six (a ∷ b ∷ c ∷ d ∷ []) h = absurd (omega arith)
length-six (a ∷ b ∷ c ∷ d ∷ e ∷ []) h = absurd (omega arith)
length-six (a ∷ b ∷ c ∷ d ∷ e ∷ f ∷ []) h = (a, b, c, d, e, f, refl)
length-six (a ∷ b ∷ c ∷ d ∷ e ∷ f ∷ x ∷ rest) h = absurd (omega arith)
