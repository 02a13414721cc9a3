-- ===== src/Fs/Names/Normal.antt =====
-- Normal paths: what `normalize_path` of kernel/src/fs/ramfs.rs gives, and that it leaves them alone.
use vibra.Fs.Names.{
  slash, cons_first, split_path, pop, push_part, push_parts, join_parts, root_or, normalize_path,
  contains_slash,
}
use vibra.Common.{
  ℕ, List, [], ◌∷◌, ◌++◌, Bool, true, false, not, ◌&&◌, ◌||◌, ◌==◌, bytes_eq, ◌≡◌, refl, sym, ap,
  ◌∙◌, arith, Bool-cases, inl, inr,
}

-- A component: no slash, and no part that a path drops.
abbrev pub is_component : List ℕ → Bool
is_component p =
    not (bytes_eq p [] || bytes_eq p (b'.' ∷ []))
    && not (bytes_eq p (b'.' ∷ b'.' ∷ []))
    && not (contains_slash p)

abbrev all_flat : List (List ℕ) → Bool
all_flat [] = true
all_flat (p ∷ ps) = not (contains_slash p) && all_flat ps

abbrev all_components : List (List ℕ) → Bool
all_components [] = true
all_components (p ∷ ps) = is_component p && all_components ps

cons_first-flat :
    (c : ℕ) (ps : List (List ℕ))
    → (c == slash) ≡ false
    → all_flat ps ≡ true
    → all_flat (cons_first c ps) ≡ true
unfolding contains_slash
cons_first-flat c [] h flat = ground arith
cons_first-flat c (p ∷ ps) h flat = ground arith

split_path-flat : (path : List ℕ) → all_flat (split_path path) ≡ true
unfolding split_path contains_slash
split_path-flat [] = refl
split_path-flat (c ∷ cs) = elim (Bool-cases (c == slash)) [
  | inl cut ↦ rw cut (split_path-flat cs)
  | inr goes_on ↦ rw goes_on (cons_first-flat c (split_path cs) goes_on (split_path-flat cs))
]

pop-components : (ps : List (List ℕ)) → all_components ps ≡ true → all_components (pop ps) ≡ true
unfolding pop
pop-components [] h = refl
pop-components (p ∷ []) h = refl
pop-components (p ∷ q ∷ ps) h = ground (arith, pop-components (q ∷ ps))

push-components :
    (ps : List (List ℕ)) (p : List ℕ)
    → all_components ps ≡ true
    → is_component p ≡ true
    → all_components (ps ++ p ∷ []) ≡ true
push-components [] p h k = ground arith
push-components (q ∷ ps) p h k = ground (arith, push-components ps p)

push_parts-components :
    (ps parts : List (List ℕ))
    → all_components ps ≡ true
    → all_flat parts ≡ true
    → all_components (push_parts ps parts) ≡ true
unfolding push_parts push_part
push_parts-components ps [] h flat = h
push_parts-components ps (p ∷ parts) h flat =
    elim (Bool-cases (bytes_eq p [] || bytes_eq p (b'.' ∷ []))) [
      | inl dropped ↦ rw dropped (push_parts-components ps parts h (ground arith))
      | inr kept ↦ elim (Bool-cases (bytes_eq p (b'.' ∷ b'.' ∷ []))) [
        | inl up ↦
            rw (kept, up)
              (push_parts-components (pop ps) parts (pop-components ps h) (ground arith))
        | inr name ↦
            rw (kept, name)
              (push_parts-components (ps ++ p ∷ []) parts (push-components ps p h (ground arith))
                (ground arith))
      ]
    ]

-- Components are pushed as they are.
append_assoc : (xs ys zs : List (List ℕ)) → (xs ++ ys) ++ zs ≡ xs ++ (ys ++ zs)
append_assoc [] ys zs = refl
append_assoc (x ∷ xs) ys zs = ap (λ r. x ∷ r) (append_assoc xs ys zs)

append-nil : (xs : List (List ℕ)) → xs ++ [] ≡ xs
append-nil [] = refl
append-nil (x ∷ xs) = ap (λ r. x ∷ r) (append-nil xs)

push_parts-append :
    (ps parts : List (List ℕ)) → all_components parts ≡ true → push_parts ps parts ≡ ps ++ parts
unfolding push_parts push_part
push_parts-append ps [] h = sym (append-nil ps)
push_parts-append ps (p ∷ parts) h =
    let kept : (bytes_eq p [] || bytes_eq p (b'.' ∷ [])) ≡ false = ground arith in
    let name : bytes_eq p (b'.' ∷ b'.' ∷ []) ≡ false = ground arith in
    rw (kept, name)
      (push_parts-append (ps ++ p ∷ []) parts (ground arith) ∙ append_assoc ps (p ∷ []) parts)

split_path-cut :
    (p rest : List ℕ)
    → contains_slash p ≡ false
    → split_path (p ++ slash ∷ rest) ≡ p ∷ split_path rest
unfolding split_path contains_slash
split_path-cut [] rest flat = refl
split_path-cut (c ∷ cs) rest flat =
    let goes_on : (c == slash) ≡ false = ground arith in
    rw goes_on (ap (cons_first c) (split_path-cut cs rest (ground arith)))

split_path-end : (p : List ℕ) → contains_slash p ≡ false → split_path (p ++ []) ≡ p ∷ []
unfolding split_path contains_slash
split_path-end [] flat = refl
split_path-end (c ∷ cs) flat =
    let goes_on : (c == slash) ≡ false = ground arith in
    rw goes_on (ap (cons_first c) (split_path-end cs (ground arith)))

split_path-join :
    (p : List ℕ) (ps : List (List ℕ))
    → all_components (p ∷ ps) ≡ true
    → split_path (p ++ join_parts ps) ≡ p ∷ ps
unfolding join_parts
split_path-join p [] h = split_path-end p (ground arith)
split_path-join p (q ∷ ps) h =
    split_path-cut p (q ++ join_parts ps) (ground arith)
    ∙ ap (λ r. p ∷ r) (split_path-join q ps (ground arith))

normalize-joined :
    (ps : List (List ℕ))
    → all_components ps ≡ true
    → normalize_path (root_or (join_parts ps)) ≡ root_or (join_parts ps)
unfolding normalize_path split_path push_parts push_part join_parts root_or bytes_eq
normalize-joined [] h = refl
normalize-joined (p ∷ ps) h =
    ap (λ parts. root_or (join_parts parts))
      (ap (push_parts []) (split_path-join p ps h) ∙ push_parts-append [] (p ∷ ps) h)

-- `normalize_path` of the file system in memory leaves every path that it has made as it is.
pub normalize_path_idem :
    (path : List ℕ) → normalize_path (normalize_path path) ≡ normalize_path path
unfolding normalize_path
normalize_path_idem path =
    normalize-joined (push_parts [] (split_path path))
      (push_parts-components [] (split_path path) refl (split_path-flat path))
