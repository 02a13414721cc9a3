-- ===== src/Fs/Fat32/Dir/ShortName.antt =====
-- The 8.3 form of a name in kernel/src/fs/fat32.rs: `to_83`, and `get_name` of what it made.
use vibra.Common.{
  ℕ, zero, suc, ◌-◌, ◌≤◌, ◌≡◌, refl, sym, ap, ap₂, ◌∙◌, List, [], ◌∷◌, ◌++◌, map, some, true, false,
  ◌==◌, length, take, drop, replicate, arith, length-append, length-replicate, Bool-cases,
  Option-cases, inl, inr, ◌⊎◌, ==_iff,
}
use vibra.Fs.Disk.{Bytes}
use vibra.Fs.Fat32.Dir.{
  FatDirEntry, get_name, without_spaces, dotted, ascii_upper, rfind_dot, is_valid_83, all_valid,
  pad, pack_83, to_83,
}

without_spaces-append :
    (xs ys : Bytes) → without_spaces (xs ++ ys) ≡ without_spaces xs ++ without_spaces ys
unfolding without_spaces
without_spaces-append [] ys = refl
without_spaces-append (x ∷ xs) ys = ground (arith, without_spaces-append xs ys)

without_spaces-replicate : (n : ℕ) → without_spaces (replicate n b' ') ≡ []
unfolding without_spaces
without_spaces-replicate zero = refl
without_spaces-replicate (suc n) = without_spaces-replicate n

space_refused : (c : ℕ) → is_valid_83 c ≡ true → (c == b' ') ≡ false
unfolding is_valid_83
space_refused c h = ground arith

without_spaces-all_valid : (cs : List ℕ) → all_valid cs ≡ true → without_spaces cs ≡ cs
unfolding without_spaces all_valid
without_spaces-all_valid [] h = refl
without_spaces-all_valid (c ∷ cs) h = ground (arith, space_refused c, without_spaces-all_valid cs)

append-nil : (xs : List ℕ) → xs ++ [] ≡ xs
append-nil [] = refl
append-nil (x ∷ xs) = ap (λ ys. x ∷ ys) (append-nil xs)

without_spaces-pad : (n : ℕ) (cs : List ℕ) → all_valid cs ≡ true → without_spaces (pad n cs) ≡ cs
without_spaces-pad n cs h =
    without_spaces-append cs (replicate (n - length cs) b' ')
    ∙ ap₂ (λ (a b : List ℕ). a ++ b) (without_spaces-all_valid cs h)
        (without_spaces-replicate (n - length cs))
    ∙ append-nil cs

length-pad : (n : ℕ) (cs : List ℕ) → length cs ≤ n → length (pad n cs) ≡ n
length-pad n cs le = omega (
  arith,
  length-append cs (replicate (n - length cs) b' '),
  length-replicate {A = ℕ} (n - length cs) b' ',
)

take-front : (n : ℕ) (xs ys : List ℕ) → length xs ≡ n → take n (xs ++ ys) ≡ xs
take-front zero [] ys e = refl
take-front zero (x ∷ xs) ys e = absurd (omega arith)
take-front (suc n) [] ys e = absurd (omega arith)
take-front (suc n) (x ∷ xs) ys e = ap (λ zs. x ∷ zs) (take-front n xs ys (omega arith))

drop-front : (n : ℕ) (xs ys : List ℕ) → length xs ≡ n → drop n (xs ++ ys) ≡ ys
drop-front zero [] ys e = refl
drop-front zero (x ∷ xs) ys e = absurd (omega arith)
drop-front (suc n) [] ys e = absurd (omega arith)
drop-front (suc n) (x ∷ xs) ys e = drop-front n xs ys (omega arith)

take-whole : (n : ℕ) (xs : List ℕ) → length xs ≡ n → take n xs ≡ xs
take-whole n xs e = ap (λ ys. take n ys) (sym (append-nil xs)) ∙ take-front n xs [] e

-- What `pack_83` accepts and makes.
pack_83-some :
    (base ext : List ℕ) {packed : Bytes}
    → pack_83 base ext ≡ some packed
    → (length base ≤ 8)
      × (length ext ≤ 3)
      × (all_valid base ≡ true)
      × (all_valid ext ≡ true)
      × (packed ≡ pad 8 base ++ pad 3 ext)
unfolding pack_83
pack_83-some base ext h = ground arith

get_name-pack_83 :
    (e : FatDirEntry) (base ext : List ℕ)
    → pack_83 base ext ≡ some e.name
    → get_name e ≡ base ++ dotted ext
unfolding get_name
get_name-pack_83 e base ext h =
    let (short, short_ext, valid, valid_ext, made) = pack_83-some base ext h in
    let front : take 8 e.name ≡ pad 8 base =
      ap (λ n. take 8 n) made ∙ take-front 8 (pad 8 base) (pad 3 ext) (length-pad 8 base short) in
    let back : take 3 (drop 8 e.name) ≡ pad 3 ext =
      ap (λ n. take 3 (drop 8 n)) made
      ∙ ap (λ n. take 3 n) (drop-front 8 (pad 8 base) (pad 3 ext) (length-pad 8 base short))
      ∙ take-whole 3 (pad 3 ext) (length-pad 3 ext short_ext) in
    ap₂ (λ (a b : List ℕ). a ++ dotted b)
      (ap without_spaces front ∙ without_spaces-pad 8 base valid)
      (ap without_spaces back ∙ without_spaces-pad 3 ext valid_ext)

rfind_dot-some :
    (cs : List ℕ) (i : ℕ) → rfind_dot cs ≡ some i → cs ≡ take i cs ++ b'.' ∷ drop (suc i) cs
unfolding rfind_dot
rfind_dot-some [] i h = absurd (cc)
rfind_dot-some (c ∷ cs) i h = elim (Option-cases (rfind_dot cs)) [
  | inr (j, e) ↦
      let at : suc j ≡ i = ground arith in rw (← at) (ap (λ ys. c ∷ ys) (rfind_dot-some cs j e))
  | inl e ↦ elim (Bool-cases (c == b'.')) [
    | inl dot ↦
        let at : 0 ≡ i = ground arith in rw (← at) (ap (λ x. x ∷ cs) ((==_iff c b'.').0 dot))
    | inr other ↦ absurd (ground arith)
  ]
]

-- The extension decides whether the dot is lost.
with_dot :
    (u base ext shown : List ℕ)
    → u ≡ base ++ b'.' ∷ ext
    → shown ≡ base ++ dotted ext
    → (shown ≡ u) ⊎ (shown ++ b'.' ∷ [] ≡ u)
with_dot u base [] shown whole e =
    inr (ap (λ xs. xs ++ b'.' ∷ []) (e ∙ append-nil base) ∙ sym whole)
with_dot u base (x ∷ ext) shown whole e = inl (e ∙ sym whole)

-- From an entry whose name `to_83` made of a file's name, `get_name` gives the file's name in
-- capitals, less a dot at its end.
pub get_name-to_83 :
    (name : List ℕ) (e : FatDirEntry)
    → to_83 name ≡ some e.name
    → (get_name e ≡ map ascii_upper name) ⊎ (get_name e ++ b'.' ∷ [] ≡ map ascii_upper name)
unfolding to_83
get_name-to_83 name e h = elim (Option-cases (rfind_dot (map ascii_upper name))) [
  | inl q ↦
      let h' : pack_83 (map ascii_upper name) [] ≡ some e.name = ground arith in
      inl (get_name-pack_83 e (map ascii_upper name) [] h' ∙ append-nil (map ascii_upper name))
  | inr (i, q) ↦
      let u = map ascii_upper name in
      let h' : pack_83 (take i u) (drop (suc i) u) ≡ some e.name = ground arith in
      with_dot u (take i u) (drop (suc i) u) (get_name e) (rfind_dot-some u i q)
        (get_name-pack_83 e (take i u) (drop (suc i) u) h')
]
