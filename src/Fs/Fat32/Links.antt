-- ===== src/Fs/Fat32/Links.antt =====
-- The clusters of a file as kernel/src/fs/fat32.rs links them: each entry of the table is the next cluster,
-- the last one a mark of the end or a number below 2.
use vibra.Common.{
  ℕ, zero, suc, ◌+◌, ◌≤◌, ◌<◌, ◌≡◌, ◌≢◌, refl, ap, List, [], ◌∷◌, ◌++◌, true, false, length, arith,
}
use native.Mathlib.Decide.{ℕ_discrete}
use vibra.Fs.Fat32.{is_last}

pub data Links (t : ℕ → ℕ) : ℕ → List ℕ → Type 0 where
  last_link : {c : ℕ} → is_last (t c) ≡ true → Links t c (c ∷ [])
  next_link : {c : ℕ} {cs : List ℕ} → is_last (t c) ≡ false → Links t (t c) cs → Links t c (c ∷ cs)

abbrev pub All : (ℕ → Type 0) → List ℕ → Type 0
All P [] = Unit
All P (x ∷ xs) = P x × All P xs

abbrev pub Below : ℕ → List ℕ → Type 0
Below n = All (λ x. x < n)

abbrev pub Fresh : ℕ → List ℕ → Type 0
Fresh c = All (λ x. c ≢ x)

abbrev pub Distinct : List ℕ → Type 0
Distinct [] = Unit
Distinct (x ∷ xs) = Fresh x xs × Distinct xs

-- A table links one list from a cluster.
Links-unique : (t : ℕ → ℕ) (c : ℕ) (cs ds : List ℕ) → Links t c cs → Links t c ds → cs ≡ ds
Links-unique t c cs ds (last_link h) (last_link k) = refl
Links-unique t c cs ds (last_link h) (next_link k r) = absurd (cc)
Links-unique t c cs ds (next_link h l) (last_link k) = absurd (cc)
Links-unique t c cs ds (next_link {cs = es} h l) (next_link {cs = fs} k r) =
    ap (λ xs. c ∷ xs) (Links-unique t (t c) es fs l r)

-- A cluster further down the list would link a shorter one.
tail_of-Links :
    (t : ℕ → ℕ) (a c : ℕ) (cs : List ℕ)
    → Links t c cs
    → ((ds : List ℕ) → Links t a ds → length cs < length ds)
    → Fresh a cs
tail_of-Links t a c cs (last_link h) longer =
    ((λ e. absurd (omega (arith, longer (c ∷ []) (rw e (last_link h))))), tt)
tail_of-Links t a c cs (next_link {cs = es} h l) longer = (
  (λ e. absurd (omega (arith, longer (c ∷ es) (rw e (next_link h l))))),
  tail_of-Links t a (t c) es l (λ ds k. omega (arith, longer ds k)),
)

pub Links-Distinct : (t : ℕ → ℕ) (c : ℕ) (cs : List ℕ) → Links t c cs → Distinct cs
Links-Distinct t c cs (last_link h) = (tt, tt)
Links-Distinct t c cs (next_link {cs = es} h l) = (
  tail_of-Links t c (t c) es l
      (λ ds k. omega (arith, ap length (Links-unique t c (c ∷ es) ds (next_link h l) k))),
  Links-Distinct t (t c) es l,
)

-- The numbers of a list that are not the given one.
without : ℕ → List ℕ → List ℕ
without n [] = []
without n (x ∷ xs) = elim (ℕ_discrete n x) [ yes e ↦ without n xs | no ne ↦ x ∷ without n xs ]

without-Fresh : (c n : ℕ) (xs : List ℕ) → Fresh c xs → Fresh c (without n xs)
unfolding without
without-Fresh c n [] h = tt
without-Fresh c n (x ∷ xs) h =
    elim (ℕ_discrete n x)
      as (λ b. Fresh c (elim b [ yes e ↦ without n xs | no ne ↦ x ∷ without n xs ])) [
        | yes e ↦ without-Fresh c n xs h.1
        | no ne ↦ (h.0, without-Fresh c n xs h.1)
      ]

without-Distinct : (n : ℕ) (xs : List ℕ) → Distinct xs → Distinct (without n xs)
unfolding without
without-Distinct n [] h = tt
without-Distinct n (x ∷ xs) h =
    elim (ℕ_discrete n x)
      as (λ b. Distinct (elim b [ yes e ↦ without n xs | no ne ↦ x ∷ without n xs ])) [
        | yes e ↦ without-Distinct n xs h.1
        | no ne ↦ (without-Fresh x n xs h.0, without-Distinct n xs h.1)
      ]

without-Below : (n : ℕ) (xs : List ℕ) → Below (suc n) xs → Below n (without n xs)
unfolding without
without-Below n [] h = tt
without-Below n (x ∷ xs) h =
    elim (ℕ_discrete n x)
      as (λ b. Below n (elim b [ yes e ↦ without n xs | no ne ↦ x ∷ without n xs ])) [
        | yes e ↦ without-Below n xs h.1
        | no ne ↦ (omega arith, without-Below n xs h.1)
      ]

without-absent : (n : ℕ) (xs : List ℕ) → Fresh n xs → length (without n xs) ≡ length xs
unfolding without
without-absent n [] h = refl
without-absent n (x ∷ xs) h =
    elim (ℕ_discrete n x)
      as (λ b.
        length (elim b [ yes e ↦ without n xs | no ne ↦ x ∷ without n xs ]) ≡ suc (length xs)) [
          | yes e ↦ absurd (h.0 e)
          | no ne ↦ ap suc (without-absent n xs h.1)
        ]

length-without : (n : ℕ) (xs : List ℕ) → Distinct xs → length xs ≤ length (without n xs) + 1
unfolding without
length-without n [] h = omega arith
length-without n (x ∷ xs) h =
    elim (ℕ_discrete n x)
      as (λ b.
        suc (length xs) ≤ length (elim b [ yes e ↦ without n xs | no ne ↦ x ∷ without n xs ]) + 1) [
          | yes e ↦ omega (arith, without-absent n xs (rw e h.0))
          | no ne ↦ omega (arith, length-without n xs h.1)
        ]

pub length-Distinct : (n : ℕ) (xs : List ℕ) → Distinct xs → Below n xs → length xs ≤ n
length-Distinct zero [] h b = omega arith
length-Distinct zero (x ∷ xs) h b = absurd (omega arith)
length-Distinct (suc n) xs h b = omega (
  arith,
  length-without n xs h,
  length-Distinct n (without n xs) (without-Distinct n xs h) (without-Below n xs b),
)

abbrev pub last : List ℕ → ℕ
last [] = 0
last (c ∷ []) = c
last (c ∷ c' ∷ cs) = last (c' ∷ cs)

pub Links-ne_nil : {t : ℕ → ℕ} {c : ℕ} {cs : List ℕ} → Links t c cs → cs ≢ []
Links-ne_nil (last_link h) e = cc
Links-ne_nil (next_link h l) e = cc

pub is_last-last : (t : ℕ → ℕ) (c : ℕ) (cs : List ℕ) → Links t c cs → is_last (t (last cs)) ≡ true
is_last-last t c cs (last_link h) = h
is_last-last t c cs (next_link {cs = []} h l) = absurd (Links-ne_nil l refl)
is_last-last t c cs (next_link {cs = e ∷ es} h l) = is_last-last t (t c) (e ∷ es) l

-- A cluster linked behind the last one.
pub Links-grow :
    (t t' : ℕ → ℕ) (c new : ℕ) (cs : List ℕ)
    → Links t c cs
    → t' (last cs) ≡ new
    → is_last new ≡ false
    → is_last (t' new) ≡ true
    → All (λ x. last cs ≢ x → t' x ≡ t x) cs
    → Links t' c (cs ++ new ∷ [])
Links-grow t t' c new cs (last_link h) at real end same =
    next_link (rw at real) (rw at (last_link end))
Links-grow t t' c new cs (next_link {cs = []} h l) at real end same = absurd (Links-ne_nil l refl)
Links-grow t t' c new cs (next_link {cs = e ∷ es} h l) at real end same =
    let inner : last (e ∷ es) ≢ c =
      λ q. absurd (cc (ap (λ x. is_last (t x)) q, h, is_last-last t (t c) (e ∷ es) l)) in
    let keep : t' c ≡ t c = same.0 inner in
    next_link (rw keep h) (rw keep (Links-grow t t' (t c) new (e ∷ es) l at real end same.1))

-- Every cluster but the last has a number in its entry that is not free.
pub Links-in_use :
    (t : ℕ → ℕ) (c : ℕ) (cs : List ℕ) → Links t c cs → t (last cs) ≢ 0 → All (λ x. t x ≢ 0) cs
Links-in_use t c cs (last_link h) end = (end, tt)
Links-in_use t c cs (next_link {cs = []} h l) end = absurd (Links-ne_nil l refl)
Links-in_use t c cs (next_link {cs = e ∷ es} h l) end =
    ((λ z. absurd (cc (ap is_last z, h))), Links-in_use t (t c) (e ∷ es) l end)

pub last-Below : (n c : ℕ) (cs : List ℕ) → Below n (c ∷ cs) → last (c ∷ cs) < n
last-Below n c [] b = b.0
last-Below n c (c' ∷ cs) b = last-Below n c' cs b.1

pub All-map2 :
    (P Q R : ℕ → Type 0) (cs : List ℕ)
    → ((x : ℕ) → P x → Q x → R x)
    → All P cs
    → All Q cs
    → All R cs
All-map2 P Q R [] f p q = tt
All-map2 P Q R (c ∷ cs) f p q = (f c p.0 q.0, All-map2 P Q R cs f p.1 q.1)

pub All-mono : (P Q : ℕ → Type 0) (cs : List ℕ) → ((x : ℕ) → P x → Q x) → All P cs → All Q cs
All-mono P Q [] f p = tt
All-mono P Q (c ∷ cs) f p = (f c p.0, All-mono P Q cs f p.1)

-- A table that agrees on the clusters of a list links it too.
pub Links-agree :
    (t t' : ℕ → ℕ) (c : ℕ) (cs : List ℕ) → Links t c cs → All (λ x. t' x ≡ t x) cs → Links t' c cs
Links-agree t t' c cs (last_link h) same = last_link (rw same.0 h)
Links-agree t t' c cs (next_link {cs = es} h l) same =
    next_link (rw same.0 h) (rw same.0 (Links-agree t t' (t c) es l same.1))
