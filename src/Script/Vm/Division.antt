-- ===== src/Script/Vm/Division.antt =====
-- Signed division of kernel/src/script/vm.rs on 64-bit words.
use vibra.Common.{
  ℕ, ◌⊎◌, ltb, leb, ◌+◌, ◌-◌, ◌*◌, ◌/◌, ◌%◌, ◌^◌, ◌≤◌, ◌<◌, ◌≡◌, refl, sym, ap, ◌∙◌, none, some,
  Bool, true, false, ◌==◌, if◌then◌else◌, u64_mod, arith, Bool-cases, inl, inr,
}
use native.Mathlib.Nat.{mul-le-mul_left, mod-add-div', mod-lt, add-mul, mul-add, div-le_self}
use vibra.Script.Vm.{is_negative, magnitude, signed, differ, overflows, divide, remainder}

-- Quotient and remainder of two words, up to multiples of 2^64.
record Divides (a b q r : ℕ) : Type 0 where
  small_q : q < u64_mod
  small_r : r < u64_mod
  whole : (q * b + r) % u64_mod ≡ a

negated : (x b : ℕ) → x < u64_mod → ((u64_mod - x) % u64_mod * b + x * b) % u64_mod ≡ 0
negated x b lt = elim (Bool-cases (x == 0)) [
  | inl e ↦ let z : x ≡ 0 = ground arith in rw z (omega arith)
  | inr e ↦
      let pos : 0 < x = ground arith in
      let word : (u64_mod - x) % u64_mod ≡ u64_mod - x = omega arith in
      let sum : (u64_mod - x) * b + x * b ≡ u64_mod * b =
        sym (add-mul (u64_mod - x) x b)
        ∙ ap (λ y. y * b) (let e' : u64_mod - x + x ≡ u64_mod = omega arith in e') in
      rw word (omega (arith, sum))
]

-- Quotient and remainder of the magnitudes, with their signs.
signed-Divides :
    (a b m n q r : ℕ) (na nb : Bool)
    → a < u64_mod
    → q < u64_mod
    → r < u64_mod
    → n ≤ u64_mod
    → m < u64_mod
    → r + q * n ≡ m
    → a ≡ (if na then u64_mod - m else m)
    → b ≡ (if nb then u64_mod - n else n)
    → Divides a b (signed (differ na nb) q) (signed na r)
signed-Divides a b m n q r false false lt sq sr sn sm parts ea eb = record {
  small_q = sq;
  small_r = sr;
  whole = let g : (q * n + r) % u64_mod ≡ m = omega (arith, ea) in rw eb (g ∙ sym ea);
}
signed-Divides a b m n q r true false lt sq sr sn sm parts ea eb = record {
  small_q = omega arith;
  small_r = omega arith;
  whole =
      let neg = negated q n sq in
      let e : a ≡ u64_mod - m = ea in
      let g : ((u64_mod - q) % u64_mod * n + (u64_mod - r) % u64_mod) % u64_mod ≡ a =
        omega (arith, neg) in
      rw eb g;
}
signed-Divides a b m n q r false true lt sq sr sn sm parts ea eb = record {
  small_q = omega arith;
  small_r = sr;
  whole =
      let neg = negated q (u64_mod - n) sq in
      let sum : q * (u64_mod - n) + q * n ≡ q * u64_mod =
        sym (mul-add q (u64_mod - n) n)
        ∙ ap (λ y. q * y) (let e : u64_mod - n + n ≡ u64_mod = omega arith in e) in
      let g : ((u64_mod - q) % u64_mod * (u64_mod - n) + r) % u64_mod ≡ m =
        omega (arith, neg, sum, ea) in
      rw eb (g ∙ sym ea);
}
signed-Divides a b m n q r true true lt sq sr sn sm parts ea eb = record {
  small_q = sq;
  small_r = omega arith;
  whole =
      let sum : q * (u64_mod - n) + q * n ≡ q * u64_mod =
        sym (mul-add q (u64_mod - n) n)
        ∙ ap (λ y. q * y) (let e : u64_mod - n + n ≡ u64_mod = omega arith in e) in
      let e : a ≡ u64_mod - m = ea in
      let g : (q * (u64_mod - n) + (u64_mod - r) % u64_mod) % u64_mod ≡ a = omega (arith, sum) in
      rw eb g;
}

magnitude-signed :
    (w : ℕ)
    → w < u64_mod
    → (w ≡ (if is_negative w then u64_mod - magnitude w else magnitude w)) × (magnitude w < u64_mod)
magnitude-signed w lt = elim (Bool-cases (is_negative w)) [
  | inl e ↦ rw e (omega arith, let n : 2 ^ 63 ≤ w = ground arith in omega arith)
  | inr e ↦ rw e (refl, lt)
]

-- A word as a signed number: its absolute value, and whether it is below zero.
abbrev pub size : ℕ → ℕ
size w = if ltb w (2 ^ 63) then w else 2 ^ 64 - w

abbrev pub below_zero : ℕ → Bool
below_zero w = leb (2 ^ 63) w

-- Signed division that rounds towards zero.
pub record IsTruncated (a b q r : ℕ) : Type 0 where
  pub small_q : q < u64_mod
  pub small_r : r < u64_mod
  pub whole : (q * b + r) % u64_mod ≡ a
  pub parts : size q * size b + size r ≡ size a
  pub rest : size r < size b
  pub rest_sign : (r ≡ 0) ⊎ (below_zero r ≡ below_zero a)
  pub quotient_sign : (q ≡ 0) ⊎ (below_zero q ≡ differ (below_zero a) (below_zero b))

-- A sign and an absolute value that fit in a word.
FitsSigned : Bool → ℕ → Type 0
FitsSigned negative m = (m ≤ 2 ^ 63) × ((negative ≡ true) ⊎ (m < 2 ^ 63))

signed-lem :
    (negative : Bool) (m : ℕ)
    → FitsSigned negative m
    → (size (signed negative m) ≡ m)
      × ((signed negative m ≡ 0) ⊎ (below_zero (signed negative m) ≡ negative))
unfolding FitsSigned
signed-lem true m fits = elim (Bool-cases (m == 0)) [
  | inl e ↦ (ground arith, inl (ground arith))
  | inr e ↦ (ground arith, inr (ground arith))
]
signed-lem false m (le, inl e) = absurd (cc)
signed-lem false m (le, inr lt) = (ground arith, inr (ground arith))

size-magnitude : (w : ℕ) → size w ≡ magnitude w
size-magnitude w = ground arith

halved : (m n : ℕ) → 2 ≤ n → m ≤ 2 ^ 63 → m / n < 2 ^ 63
halved m n large short =
    let parts = mod-add-div' m n in
    let twice : m / n * 2 ≤ m / n * n = mul-le-mul_left (m / n) large in omega arith

by_one :
    (a b : ℕ)
    → a < u64_mod
    → b < u64_mod
    → magnitude b ≡ 1
    → overflows a b ≡ false
    → (differ (is_negative a) (is_negative b) ≡ true) ⊎ (magnitude a / magnitude b < 2 ^ 63)
unfolding overflows
by_one a b la lb one fits =
    let le = div-le_self (magnitude a) (magnitude b) in
    elim (Bool-cases (is_negative a)) [
      | inl neg_a ↦ elim (Bool-cases (is_negative b)) [
        | inl neg_b ↦ inr (ground arith)
        | inr pos_b ↦ inl (rw (neg_a, pos_b) refl)
      ]
      | inr pos_a ↦ inr (ground arith)
    ]

-- Only the least number by -1 has a quotient that does not fit.
quotient_fits :
    (a b : ℕ)
    → a < u64_mod
    → b < u64_mod
    → 0 < magnitude b
    → overflows a b ≡ false
    → FitsSigned (differ (is_negative a) (is_negative b)) (magnitude a / magnitude b)
unfolding overflows FitsSigned
quotient_fits a b la lb pos fits =
    let le = div-le_self (magnitude a) (magnitude b) in
    (
      ground arith,
      elim (Bool-cases (magnitude b == 1)) [
        | inl one ↦ by_one a b la lb (ground arith) fits
        | inr more ↦
            let large : 2 ≤ magnitude b = ground arith in
            let short : magnitude a ≤ 2 ^ 63 = ground arith in
            inr (halved (magnitude a) (magnitude b) large short)
      ],
    )

-- A remainder is below the absolute value of the divisor.
remainder_fits :
    (a b : ℕ)
    → a < u64_mod
    → b < u64_mod
    → 0 < magnitude b
    → FitsSigned (is_negative a) (magnitude a % magnitude b)
unfolding FitsSigned
remainder_fits a b la lb pos =
    let below = mod-lt (magnitude a) {m = magnitude b} pos in
    let short : magnitude b ≤ 2 ^ 63 = ground arith in (omega arith, inr (omega arith))

divide-IsTruncated :
    (a b : ℕ)
    → a < u64_mod
    → b < u64_mod
    → 0 < b
    → overflows a b ≡ false
    → (q : ℕ) × ((r : ℕ) × (divide a b ≡ some q) × (remainder a b ≡ some r) × IsTruncated a b q r)
unfolding divide remainder
divide-IsTruncated a b la lb pos fits =
    let m = magnitude a in
    let n = magnitude b in
    let (ea, sm) = magnitude-signed a la in
    let (eb, sn) = magnitude-signed b lb in
    let n_pos : 0 < n = elim (Bool-cases (is_negative b)) [
      | inl e ↦ rw e (omega arith)
      | inr e ↦ rw e pos
    ] in
    let nonzero : (b == 0) ≡ false = ground arith in
    let le = div-le_self m n in
    let below = mod-lt m {m = n} n_pos in
    let parts = mod-add-div' m n in
    let d =
      signed-Divides a b m n (m / n) (m % n) (is_negative a) (is_negative b) la (omega arith)
        (omega arith) (omega arith) sm parts ea eb in
    let (size_q, sign_q) =
      signed-lem (differ (is_negative a) (is_negative b)) (m / n)
        (quotient_fits a b la lb n_pos fits) in
    let (size_r, sign_r) = signed-lem (is_negative a) (m % n) (remainder_fits a b la lb n_pos) in
    (
      signed (differ (is_negative a) (is_negative b)) (m / n),
      (
        signed (is_negative a) (m % n),
        rw (nonzero, fits) refl,
        rw (nonzero, fits) refl,
        record {
          small_q = d.small_q;
          small_r = d.small_r;
          whole = d.whole;
          parts = rw (size_q, size_r, size-magnitude a, size-magnitude b) (omega (arith, parts));
          rest = rw (size_r, size-magnitude b) below;
          rest_sign = sign_r;
          quotient_sign = sign_q;
        },
      ),
    )

-- For two 64-bit words, `/` by 0 gives 0 and `%` by 0 panics; the least number by -1 panics in
-- both; in every other case the quotient and the remainder are words, the quotient times the
-- divisor plus the remainder is the dividend, for the words modulo 2^64 and for the absolute
-- values exactly, the remainder is below the divisor in absolute value, it has the sign of the
-- dividend unless it is 0, and the quotient has the sign of the two signs' product unless it is
-- 0.
pub divide-remainder :
    (a b : ℕ)
    → a < u64_mod
    → b < u64_mod
    → ((b ≡ 0) × (divide a b ≡ some 0) × (remainder a b ≡ none))
      ⊎ (((a ≡ 2 ^ 63) × (b ≡ u64_mod - 1) × (divide a b ≡ none) × (remainder a b ≡ none))
          ⊎ ((q : ℕ) × ((r : ℕ) × (divide a b ≡ some q)
                × (remainder a b ≡ some r)
                × IsTruncated a b q r)))
divide-remainder a b la lb = elim (Bool-cases (b == 0)) [
  | inl zero_b ↦
      inl (ground arith, unfold divide in rw zero_b refl, unfold remainder in rw zero_b refl)
  | inr nonzero ↦ elim (Bool-cases (overflows a b)) [
    | inl over ↦ inr (
        inl (
          unfold overflows in ground arith,
          unfold overflows in ground arith,
          unfold divide in rw (nonzero, over) refl,
          unfold remainder in rw (nonzero, over) refl,
        ))
    | inr fits ↦ inr (inr (divide-IsTruncated a b la lb (ground arith) fits))
  ]
]
