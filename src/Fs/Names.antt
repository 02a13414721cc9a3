-- ===== src/Fs/Names.antt =====
-- Paths: `normalize_path` of kernel/src/fs/ramfs.rs, and `str::split`, `rfind` and `starts_with` on bytes.
pub mod Normal
use vibra.Common.{
  ℕ, suc, List, [], ◌∷◌, ◌++◌, Option, none, some, Bool, true, false, ◌==◌, ◌&&◌, ◌||◌, bytes_eq,
  if◌then◌else◌,
}

abbrev pub slash : ℕ
slash = b'/'

abbrev pub cons_first : ℕ → List (List ℕ) → List (List ℕ)
cons_first c [] = (c ∷ []) ∷ []
cons_first c (p ∷ ps) = (c ∷ p) ∷ ps

-- `path.split('/')`.
unfoldable pub split_path : List ℕ → List (List ℕ)
split_path [] = [] ∷ []
split_path (c ∷ cs) = if c == slash then [] ∷ split_path cs else cons_first c (split_path cs)

-- `Vec::pop`, its result dropped.
unfoldable pub pop : List (List ℕ) → List (List ℕ)
pop [] = []
pop (p ∷ []) = []
pop (p ∷ q ∷ ps) = p ∷ pop (q ∷ ps)

unfoldable pub push_part : List (List ℕ) → List ℕ → List (List ℕ)
push_part parts part =
    if bytes_eq part [] || bytes_eq part (b'.' ∷ [])
    then parts
    else if bytes_eq part (b'.' ∷ b'.' ∷ [])
    then pop parts
    else parts ++ part ∷ []

unfoldable pub push_parts : List (List ℕ) → List (List ℕ) → List (List ℕ)
unfolding push_part
push_parts parts [] = parts
push_parts parts (p ∷ ps) = push_parts (push_part parts p) ps

unfoldable pub join_parts : List (List ℕ) → List ℕ
join_parts [] = []
join_parts (p ∷ ps) = slash ∷ p ++ join_parts ps

unfoldable pub root_or : List ℕ → List ℕ
root_or [] = slash ∷ []
root_or (c ∷ cs) = c ∷ cs

unfoldable pub normalize_path : List ℕ → List ℕ
unfolding split_path push_parts join_parts root_or
normalize_path path = root_or (join_parts (push_parts [] (split_path path)))

-- `path.rfind('/')`.
unfoldable pub rfind_slash : List ℕ → Option ℕ
rfind_slash [] = none
rfind_slash (c ∷ cs) = elim (rfind_slash cs) [
  | some i ↦ some (suc i)
  | none ↦ if c == slash then some 0 else none
]

unfoldable pub starts_with : List ℕ → List ℕ → Bool
starts_with xs [] = true
starts_with [] (y ∷ ys) = false
starts_with (x ∷ xs) (y ∷ ys) = x == y && starts_with xs ys

unfoldable pub contains_slash : List ℕ → Bool
contains_slash [] = false
contains_slash (c ∷ cs) = c == slash || contains_slash cs
