-- ===== src/Script/Lexer.antt =====
-- The tokenizer, kernel/src/script/lexer.rs, over the characters that are left. Characters are their
-- code points. The loop has fuel, `none` is a lack of it.
pub mod Ends
use vibra.Common.{
  ℕ, zero, suc, ◌+◌, ◌-◌, ◌*◌, ◌%◌, ◌^◌, List, [], ◌∷◌, ◌++◌, Option, none, some, Bool, true, false,
  ltb, leb, ◌==◌, ◌&&◌, ◌||◌, if◌then◌else◌, length, u64_mod,
}
use vibra.Script.{
  Text, Token, number, str, ident, kw_var, kw_if, kw_else, kw_while, kw_fn, kw_return, kw_exit,
  kw_print, kw_beep, kw_sleep, kw_exec, plus, minus, star, slash, percent, eq_mark, ne_mark,
  lt_mark, gt_mark, le_mark, ge_mark, assign_mark, not_mark, lparen, rparen, lbrace, rbrace,
  semicolon, comma, colon, newline, eof,
}

unfoldable pub text_eq : Text → Text → Bool
text_eq [] [] = true
text_eq (a ∷ xs) (b ∷ ys) = a == b && text_eq xs ys
text_eq [] (b ∷ ys) = false
text_eq (a ∷ xs) [] = false

abbrev pub is_digit : ℕ → Bool
is_digit c = leb 48 c && leb c 57

abbrev pub is_alphabetic : ℕ → Bool
is_alphabetic c = leb 65 c && leb c 90 || leb 97 c && leb c 122

abbrev pub is_name : ℕ → Bool
is_name c = is_alphabetic c || is_digit c || c == 95

-- The words of the language. `let` stands before its own token, which no word gives.
abbrev pub keywords : List (Text × Token)
keywords =
    (118 ∷ 97 ∷ 114 ∷ [], kw_var)
    ∷ (108 ∷ 101 ∷ 116 ∷ [], kw_var)
    ∷ (105 ∷ 102 ∷ [], kw_if)
    ∷ (101 ∷ 108 ∷ 115 ∷ 101 ∷ [], kw_else)
    ∷ (119 ∷ 104 ∷ 105 ∷ 108 ∷ 101 ∷ [], kw_while)
    ∷ (102 ∷ 110 ∷ [], kw_fn)
    ∷ (114 ∷ 101 ∷ 116 ∷ 117 ∷ 114 ∷ 110 ∷ [], kw_return)
    ∷ (114 ∷ 101 ∷ 116 ∷ [], kw_return)
    ∷ (101 ∷ 120 ∷ 105 ∷ 116 ∷ [], kw_exit)
    ∷ (113 ∷ 117 ∷ 105 ∷ 116 ∷ [], kw_exit)
    ∷ (112 ∷ 114 ∷ 105 ∷ 110 ∷ 116 ∷ [], kw_print)
    ∷ (101 ∷ 99 ∷ 104 ∷ 111 ∷ [], kw_print)
    ∷ (98 ∷ 101 ∷ 101 ∷ 112 ∷ [], kw_beep)
    ∷ (115 ∷ 111 ∷ 117 ∷ 110 ∷ 100 ∷ [], kw_beep)
    ∷ (115 ∷ 108 ∷ 101 ∷ 101 ∷ 112 ∷ [], kw_sleep)
    ∷ (119 ∷ 97 ∷ 105 ∷ 116 ∷ [], kw_sleep)
    ∷ (101 ∷ 120 ∷ 101 ∷ 99 ∷ [], kw_exec)
    ∷ (114 ∷ 117 ∷ 110 ∷ [], kw_exec)
    ∷ (116 ∷ 114 ∷ 117 ∷ 101 ∷ [], number 1)
    ∷ (102 ∷ 97 ∷ 108 ∷ 115 ∷ 101 ∷ [], number 0)
    ∷ (110 ∷ 117 ∷ 108 ∷ 108 ∷ [], number 0)
    ∷ (110 ∷ 105 ∷ 108 ∷ [], number 0)
    ∷ []

unfoldable pub keyword_in : List (Text × Token) → Text → Token
unfolding text_eq
keyword_in [] word = ident word
keyword_in ((name, t) ∷ rest) word = if text_eq name word then t else keyword_in rest word

unfoldable pub keyword : Text → Token
unfolding keyword_in
keyword word = keyword_in keywords word

-- An i64 is its word of 64 bits, so the sum wraps at 2^64.
unfoldable pub read_number : ℕ → Text → ℕ × Text
read_number n [] = (n, [])
read_number n (c ∷ cs) =
    let rest = read_number ((n * 10 + (c - 48)) % u64_mod) cs in
    if is_digit c then rest else (n, c ∷ cs)

unfoldable pub read_name : Text → Text × Text
read_name [] = ([], [])
read_name (c ∷ cs) =
    let (name, rest) = read_name cs in if is_name c then (c ∷ name, rest) else ([], c ∷ cs)

abbrev pub skip_comment : Text → Text
skip_comment [] = []
skip_comment (c ∷ cs) = if c == 10 then c ∷ cs else skip_comment cs

unfoldable pub escape : ℕ → Text
escape c =
    if c == 110
    then 10 ∷ []
    else if c == 116
    then 9 ∷ []
    else if c == 92 || c == 34 || c == 39
    then c ∷ []
    else 92 ∷ c ∷ []

-- A string up to its quote, which is skipped, or to the end. A backslash at the end stands for itself.
unfoldable pub read_string : ℕ → Text → Text × Text
unfolding escape
read_string quote [] = ([], [])
read_string quote (c ∷ []) = if c == quote then ([], []) else (c ∷ [], [])
read_string quote (c ∷ d ∷ cs) =
    let (s, rest) = read_string quote (d ∷ cs) in
    let (escaped, behind) = read_string quote cs in
    if c == quote
    then ([], d ∷ cs)
    else if c == 92
    then (escape d ++ escaped, behind)
    else (c ∷ s, rest)

-- A mark, and the mark it makes with `=` behind it.
unfoldable pub with_equals : Token → Token → Text → Token × Text
with_equals alone joined [] = (alone, [])
with_equals alone joined (c ∷ cs) = if c == 61 then (joined, cs) else (alone, c ∷ cs)

abbrev pub marks : List (ℕ × Token)
marks =
    (43, plus)
    ∷ (45, minus)
    ∷ (42, star)
    ∷ (47, slash)
    ∷ (37, percent)
    ∷ (40, lparen)
    ∷ (41, rparen)
    ∷ (123, lbrace)
    ∷ (125, rbrace)
    ∷ (59, semicolon)
    ∷ (44, comma)
    ∷ (58, colon)
    ∷ []

unfoldable pub mark_in : List (ℕ × Token) → ℕ → Option Token
mark_in [] c = none
mark_in ((m, t) ∷ rest) c = if m == c then some t else mark_in rest c

-- The last match of `tokenize`: a character that is none of these is skipped.
unfoldable pub mark : ℕ → Text → Option Token × Text
unfolding with_equals mark_in
mark c cs =
    if c == 33
    then (let (t, rest) = with_equals not_mark ne_mark cs in (some t, rest))
    else if c == 61
    then (let (t, rest) = with_equals assign_mark eq_mark cs in (some t, rest))
    else if c == 60
    then (let (t, rest) = with_equals lt_mark le_mark cs in (some t, rest))
    else if c == 62
    then (let (t, rest) = with_equals gt_mark ge_mark cs in (some t, rest))
    else (mark_in marks c, cs)

-- One turn of the loop: what is pushed, if anything, and the characters behind it.
unfoldable pub next_token : ℕ → Text → Option Token × Text
unfolding keyword read_number read_name read_string mark
next_token c cs =
    if c == 32 || c == 9 || c == 13
    then (none, cs)
    else if c == 35
    then (none, skip_comment cs)
    else if c == 10
    then (some newline, cs)
    else if is_digit c
    then (let (n, rest) = read_number 0 (c ∷ cs) in (some (number n), rest))
    else if is_alphabetic c || c == 95
    then (let (name, rest) = read_name cs in (some (keyword (c ∷ name)), rest))
    else if c == 34 || c == 39
    then (let (s, rest) = read_string c cs in (some (str s), rest))
    else mark c cs

abbrev pub push : Option Token → List Token → List Token
push none ts = ts
push (some t) ts = t ∷ ts

unfoldable pub tokenize_from : ℕ → Text → Option (List Token)
unfolding next_token
tokenize_from zero cs = none
tokenize_from (suc n) [] = some (eof ∷ [])
tokenize_from (suc n) (c ∷ cs) =
    let (t, rest) = next_token c cs in
    elim (tokenize_from n rest) [ none ↦ none | some ts ↦ some (push t ts) ]

unfoldable pub tokenize : Text → Option (List Token)
unfolding tokenize_from
tokenize cs = tokenize_from (suc (length cs)) cs
