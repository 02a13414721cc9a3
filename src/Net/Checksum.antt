-- ===== src/Net/Checksum.antt =====
-- `internet_checksum` of kernel/src/net/ip.rs, and what a receiver checks.
use vibra.Common.{
  ℕ, zero, suc, ◌+◌, ◌-◌, ◌*◌, ◌/◌, ◌%◌, ◌^◌, ◌≤◌, ◌<◌, ◌≡◌, ap, ◌∙◌, List, [], ◌∷◌, ◌++◌,
}
use vibra.Common.{
  arith, ◌==◌, if◌then◌else◌, length, u32_mod, join_bytes, join_bytes_lem, high_byte, low_byte,
}

-- The sum of the 16-bit words, the last byte padded by zero, in a `u32`.
unfoldable pub sum_words : ℕ → List ℕ → ℕ
unfolding join_bytes
sum_words sum [] = sum
sum_words sum (a ∷ []) = (sum + a * 256) % u32_mod
sum_words sum (a ∷ b ∷ rest) = sum_words ((sum + join_bytes a b) % u32_mod) rest

-- `while sum >> 16 != 0`, with the rounds that are left.
unfoldable pub fold_carry : ℕ → ℕ → ℕ
fold_carry zero sum = sum
fold_carry (suc fuel) sum =
    let more = fold_carry fuel (sum % 2 ^ 16 + sum / 2 ^ 16) in
    if sum / 2 ^ 16 == 0 then sum else more

-- `!sum as u16`; two rounds always end the loop (`fold_carry_done`).
unfoldable pub internet_checksum : List ℕ → ℕ
unfolding sum_words fold_carry
internet_checksum bytes = (u32_mod - 1 - fold_carry 2 (sum_words 0 bytes)) % 2 ^ 16

-- The ones' complement residue of a sum.
unfoldable pub residue : ℕ → ℕ
residue zero = 0
residue (suc n) = n % 65535 + 1

-- The loop has ended by its own test after two rounds, and leaves the residue.
fold_carry_done : (s : ℕ) → s < u32_mod → (fold_carry 2 s < 2 ^ 16) × (fold_carry 2 s ≡ residue s)
unfolding fold_carry residue
fold_carry_done zero h = ground arith
fold_carry_done (suc s) h = ground arith

abbrev pub IsBytes : List ℕ → Type 0
IsBytes [] = Unit
IsBytes (b ∷ bs) = (b < 256) × IsBytes bs

-- Two bytes at a time.
pub data HasEvenLength : List ℕ → Type 0 where
  none_left : HasEvenLength []
  two_more : (a b : ℕ) (rest : List ℕ) → HasEvenLength rest → HasEvenLength (a ∷ b ∷ rest)

-- The sum of the words, unbounded.
total : List ℕ → ℕ
total [] = 0
total (a ∷ []) = a * 256
total (a ∷ b ∷ rest) = a * 256 + b + total rest

total_bound : (bs : List ℕ) → IsBytes bs → total bs ≤ 65536 * length bs
unfolding total
total_bound [] h = omega arith
total_bound (a ∷ []) h = omega arith
total_bound (a ∷ b ∷ rest) h = omega (arith, total_bound rest h.1.1)

-- As long as the sum fits, the wrap does not show.
sum_words-total :
    (s : ℕ) (bs : List ℕ) → IsBytes bs → s + total bs < u32_mod → sum_words s bs ≡ s + total bs
unfolding sum_words total
sum_words-total s [] h fits = omega arith
sum_words-total s (a ∷ []) h fits = omega arith
sum_words-total s (a ∷ b ∷ rest) h fits =
    let word = join_bytes_lem a b h.0 h.1.0 in
    let same : (s + join_bytes a b) % u32_mod ≡ s + (a * 256 + b) = omega arith in
    rw same (omega (arith, sum_words-total (s + (a * 256 + b)) rest h.1.1 (omega arith)))

total-append :
    (pre : List ℕ) (h l : ℕ) (post : List ℕ)
    → HasEvenLength pre
    → total (pre ++ h ∷ l ∷ post) ≡ total pre + (h * 256 + l) + total post
unfolding total
total-append [] h l post none_left = omega arith
total-append (a ∷ []) h l post e = elim e [ ]
total-append (a ∷ b ∷ rest) h l post (two_more _ _ _ e) =
    omega (arith, total-append rest h l post e)

IsBytes-append : (pre post : List ℕ) → IsBytes pre → IsBytes post → IsBytes (pre ++ post)
IsBytes-append [] post h k = k
IsBytes-append (b ∷ bs) post h k = (h.0, IsBytes-append bs post h.1 k)

checksum_residue :
    (bs : List ℕ)
    → IsBytes bs
    → total bs < u32_mod
    → internet_checksum bs ≡ 65535 - residue (total bs)
unfolding internet_checksum
checksum_residue bs h fits =
    let sum = sum_words-total 0 bs h (omega arith) in
    let folded = fold_carry_done (total bs) fits in
    let same : sum_words 0 bs ≡ total bs = omega arith in rw same (omega arith)

residue_full : (s : ℕ) → residue (s + (65535 - residue s)) ≡ 65535
unfolding residue
residue_full zero = ground arith
residue_full (suc s) =
    let same : suc s + (65535 - (s % 65535 + 1)) ≡ suc (s + (65534 - s % 65535)) = omega arith in
    rw same (omega arith)

-- For bytes whose checksum field stands at an even place, fewer than 65530 of them outside it:
-- the checksum taken with the field zero, stored in the field, makes the checksum of the whole
-- zero.
pub checksum_verifies :
    (pre post : List ℕ)
    → HasEvenLength pre
    → IsBytes pre
    → IsBytes post
    → length pre + length post < 65530
    → (let c = internet_checksum (pre ++ 0 ∷ 0 ∷ post) in
        internet_checksum (pre ++ high_byte c ∷ low_byte c ∷ post) ≡ 0)
checksum_verifies pre post even h k short =
    let T = total pre + total post in
    let old : total (pre ++ 0 ∷ 0 ∷ post) ≡ T = omega (arith, total-append pre 0 0 post even) in
    let fits : T < u32_mod - 65536 = omega (arith, total_bound pre h, total_bound post k) in
    let c = internet_checksum (pre ++ 0 ∷ 0 ∷ post) in
    let is_c : c ≡ 65535 - residue T =
      checksum_residue _ (IsBytes-append pre _ h (omega arith, (omega arith, k))) (omega arith)
      ∙ ap (λ t. 65535 - residue t) old in
    let new : total (pre ++ high_byte c ∷ low_byte c ∷ post) ≡ T + (65535 - residue T) =
      omega (arith, total-append pre (high_byte c) (low_byte c) post even) in
    checksum_residue _ (IsBytes-append pre _ h (omega arith, (omega arith, k))) (omega arith)
    ∙ ap (λ t. 65535 - residue t) new
    ∙ ap (λ t. 65535 - t) (residue_full T)
