-- ===== src/Script/Lexer/Ends.antt =====
-- The tokenizer of kernel/src/script/lexer.rs ends on every text.
use vibra.Common.{
  ℕ, zero, suc, ◌+◌, ◌-◌, ◌*◌, ◌%◌, u64_mod, ◌≤◌, ◌<◌, ◌≡◌, refl, List, [], ◌∷◌, Option, none, some,
  ◌==◌, ◌||◌, Bool-cases, inl, inr, arith, length,
}
use vibra.Script.{
  Text, Token, not_mark, ne_mark, assign_mark, eq_mark, lt_mark, le_mark, gt_mark, ge_mark, eof,
}
use vibra.Script.Lexer.{
  is_digit, is_alphabetic, is_name, read_number, read_name, skip_comment, read_string, with_equals,
  mark, next_token, push, tokenize_from, tokenize,
}

length-read_number : (n : ℕ) (cs : Text) → length (read_number n cs).1 ≤ length cs
unfolding read_number
length-read_number n [] = omega arith
length-read_number n (c ∷ cs) = elim (Bool-cases (is_digit c)) [
  | inl e ↦ rw e (let h = length-read_number ((n * 10 + (c - 48)) % u64_mod) cs in omega arith)
  | inr e ↦ rw e (omega arith)
]

length-read_name : (cs : Text) → length (read_name cs).1 ≤ length cs
unfolding read_name
length-read_name [] = omega arith
length-read_name (c ∷ cs) = elim (Bool-cases (is_name c)) [
  | inl e ↦ rw e (let h = length-read_name cs in omega arith)
  | inr e ↦ rw e (omega arith)
]

length-skip_comment : (cs : Text) → length (skip_comment cs) ≤ length cs
length-skip_comment [] = omega arith
length-skip_comment (c ∷ cs) = elim (Bool-cases (c == 10)) [
  | inl e ↦ rw e (omega arith)
  | inr e ↦ rw e (let h = length-skip_comment cs in omega arith)
]

length-read_string : (quote : ℕ) (cs : Text) → length (read_string quote cs).1 ≤ length cs
unfolding read_string
length-read_string quote [] = omega arith
length-read_string quote (c ∷ []) = elim (Bool-cases (c == quote)) [
  | inl e ↦ rw e (omega arith)
  | inr e ↦ rw e (omega arith)
]
length-read_string quote (c ∷ d ∷ cs) = elim (Bool-cases (c == quote)) [
  | inl e ↦ rw e (omega arith)
  | inr e ↦ elim (Bool-cases (c == 92)) [
    | inl f ↦ rw (e, f) (let h = length-read_string quote cs in omega arith)
    | inr f ↦ rw (e, f) (let h = length-read_string quote (d ∷ cs) in omega arith)
  ]
]

length-with_equals :
    (alone joined : Token) (cs : Text) → length (with_equals alone joined cs).1 ≤ length cs
unfolding with_equals
length-with_equals alone joined [] = omega arith
length-with_equals alone joined (c ∷ cs) = elim (Bool-cases (c == 61)) [
  | inl e ↦ rw e (omega arith)
  | inr e ↦ rw e (omega arith)
]

length-mark : (c : ℕ) (cs : Text) → length (mark c cs).1 ≤ length cs
unfolding mark
length-mark c cs = elim (Bool-cases (c == 33)) [
  | inl e ↦ rw e (length-with_equals not_mark ne_mark cs)
  | inr e ↦ elim (Bool-cases (c == 61)) [
    | inl f ↦ rw (e, f) (length-with_equals assign_mark eq_mark cs)
    | inr f ↦ elim (Bool-cases (c == 60)) [
      | inl g ↦ rw (e, f, g) (length-with_equals lt_mark le_mark cs)
      | inr g ↦ elim (Bool-cases (c == 62)) [
        | inl h ↦ rw (e, f, g, h) (length-with_equals gt_mark ge_mark cs)
        | inr h ↦ rw (e, f, g, h) (omega arith)
      ]
    ]
  ]
]

length-push : (t : Option Token) (ts : List Token) → length (push t ts) ≤ suc (length ts)
length-push none ts = omega arith
length-push (some t) ts = omega arith

-- A turn of the loop uses up at least its first character.
length-next_token : (c : ℕ) (cs : Text) → length (next_token c cs).1 ≤ length cs
unfolding next_token read_number
length-next_token c cs = elim (Bool-cases (c == 32 || c == 9 || c == 13)) [
  | inl e ↦ rw e (omega arith)
  | inr e1 ↦ elim (Bool-cases (c == 35)) [
    | inl e ↦ rw (e1, e) (length-skip_comment cs)
    | inr e2 ↦ elim (Bool-cases (c == 10)) [
      | inl e ↦ rw (e1, e2, e) (omega arith)
      | inr e3 ↦ elim (Bool-cases (is_digit c)) [
        | inl e ↦ rw (e1, e2, e3, e) (length-read_number ((0 * 10 + (c - 48)) % u64_mod) cs)
        | inr e4 ↦ elim (Bool-cases (is_alphabetic c || c == 95)) [
          | inl e ↦ rw (e1, e2, e3, e4, e) (length-read_name cs)
          | inr e5 ↦ elim (Bool-cases (c == 34 || c == 39)) [
            | inl e ↦ rw (e1, e2, e3, e4, e5, e) (length-read_string c cs)
            | inr e6 ↦ rw (e1, e2, e3, e4, e5, e6) (length-mark c cs)
          ]
        ]
      ]
    ]
  ]
]

pub tokenize_from-total :
    (n : ℕ) (cs : Text)
    → length cs < n
    → (ts : List Token) × (tokenize_from n cs ≡ some ts) × (length ts ≤ suc (length cs))
unfolding tokenize_from
tokenize_from-total zero cs lt = absurd (omega arith)
tokenize_from-total (suc n) [] lt = (eof ∷ [], refl, omega arith)
tokenize_from-total (suc n) (c ∷ cs) lt =
    let le = length-next_token c cs in
    let (ts, e, short) = tokenize_from-total n (next_token c cs).1 (omega arith) in
    (
      push (next_token c cs).0 ts,
      rw e refl,
      (let p = length-push (next_token c cs).0 ts in omega arith),
    )

-- The tokenizer returns tokens for every text, one more than it has characters at most.
pub tokenize_total :
    (cs : Text) → (ts : List Token) × (tokenize cs ≡ some ts) × (length ts ≤ suc (length cs))
unfolding tokenize
tokenize_total cs = tokenize_from-total (suc (length cs)) cs (omega arith)
