-- ===== src/Fs/Fat32/Write/Range.antt =====
-- `write_range` and `read_chain` of kernel/src/fs/fat32.rs inside the chain of a file.
use vibra.Common.{
  ℕ, zero, suc, ◌+◌, ◌-◌, ◌*◌, ◌/◌, ◌%◌, ◌≤◌, ◌<◌, ◌≡◌, ◌≢◌, refl, sym, ap, ap₂, ◌∙◌, List, [], ◌∷◌,
  ◌++◌, length, arith, length-append,
}
use native.Mathlib.Decide.{dec_lt}
use native.Mathlib.Nat.{add-zero, mod-add-div'}
use vibra.Fs.{ok}
use vibra.Fs.Disk.{Bytes, DiskIo, IsLawful}
use vibra.Fs.Fat32.{Geometry, copy_to, read_chain}
use vibra.Fs.Fat32.Entries.{IsGeo, entry_of, table_kept}
use vibra.Fs.Fat32.Links.{
  Links, last_link, next_link, All, All-mono, Fresh, Distinct, Links-Distinct, Links-agree,
}
use vibra.Fs.Fat32.Chains.{chain-Links}
use vibra.Fs.Fat32.Write.{advance, write_from, write_range}
use vibra.Fs.Fat32.Write.Splice.{copy_to-nil, copy_to-right, append_assoc}
use vibra.Fs.Fat32.Write.Clusters.{
  IsCluster, cluster_bytes, content_of, content_of-same, length-cluster_bytes,
  read_clusters-content_of,
}
use vibra.Fs.Fat32.Write.Content.{next_cluster-linked, write_chunks-content_of}

head_of-Links : (P : ℕ → Type 0) (t : ℕ → ℕ) (c : ℕ) (cs : List ℕ) → Links t c cs → All P cs → P c
head_of-Links P t c cs (last_link h) all = all.0
head_of-Links P t c cs (next_link h l) all = all.0

All-parts : (P : ℕ → Type 0) (pre post : List ℕ) → All P (pre ++ post) → All P pre × All P post
All-parts P [] post all = (tt, all)
All-parts P (x ∷ pre) post all = let (a, b) = All-parts P pre post all.1 in ((all.0, a), b)

Distinct-parts :
    (pre post : List ℕ) → Distinct (pre ++ post) → Distinct post × All (λ x. Fresh x post) pre
Distinct-parts [] post dis = (dis, tt)
Distinct-parts (x ∷ pre) post dis =
    let (a, b) = Distinct-parts pre post dis.1 in
    (a, ((All-parts (λ y. x ≢ y) pre post dis.0).1, b))

All-both :
    (P Q R : ℕ → Type 0) (cs : List ℕ)
    → ((x : ℕ) → P x → Q x → R x)
    → All P cs
    → All Q cs
    → All R cs
All-both P Q R [] f p q = tt
All-both P Q R (c ∷ cs) f p q = (f c p.0 q.0, All-both P Q R cs f p.1 q.1)

content_of-append :
    (io : DiskIo) (geo : Geometry) (d : io.Disk) (pre post : List ℕ)
    → content_of io geo d (pre ++ post) ≡ content_of io geo d pre ++ content_of io geo d post
unfolding content_of
content_of-append io geo d [] post = refl
content_of-append io geo d (c ∷ pre) post =
    ap (λ xs. cluster_bytes io geo d c ++ xs) (content_of-append io geo d pre post)
    ∙ sym (
        append_assoc (cluster_bytes io geo d c) (content_of io geo d pre)
          (content_of io geo d post))

times_mono : (a b c : ℕ) → a ≤ b → a * c ≤ b * c
times_mono a b c le = grind arith

room_left :
    (q b n span r len offset : ℕ)
    → q * span + r ≡ offset
    → n ≡ q + b
    → offset + len ≤ n * span
    → r + len ≤ b * span
room_left q b n span r len offset place count fits =
    let times : n * span ≡ q * span + b * span = grind arith in omega arith

module _ (io : DiskIo) (geo : Geometry) {size : ℕ} (l : IsLawful io size) (g : IsGeo geo size) where
  length-content_of :
      (d : io.Disk) (cs : List ℕ)
      → All (IsCluster geo) cs
      → length (content_of io geo d cs) ≡ length cs * geo.cluster_size
  unfolding content_of
  length-content_of d [] real = omega arith
  length-content_of d (c ∷ cs) real =
      let times : suc (length cs) * geo.cluster_size
          ≡ length cs * geo.cluster_size + geo.cluster_size =
        grind arith in
      omega (
        arith,
        times,
        length-append (cluster_bytes io geo d c) (content_of io geo d cs),
        length-cluster_bytes io geo l g d c real.0,
        length-content_of d cs real.1,
        g.cluster_span,
      )

  -- The walk to the cluster of an offset.
  advance-Links :
      (k c : ℕ) (cs : List ℕ) (d : io.Disk)
      → Links (entry_of io geo d) c cs
      → All (IsCluster geo) cs
      → k < length cs
      → (x : ℕ) × (pre : List ℕ) × (post : List ℕ) × (advance io geo k c d ≡ (ok x, d))
        × (cs ≡ pre ++ post)
        × (length pre ≡ k)
        × Links (entry_of io geo d) x post
  unfolding advance
  advance-Links zero c cs d k real lt = (c, [], cs, refl, refl, refl, k)
  advance-Links (suc n) c cs d (last_link h) real lt = absurd (omega arith)
  advance-Links (suc n) c cs d (next_link {cs = es} h k) real lt =
      let (x, pre, post, run, e, len, rest) =
        advance-Links n (entry_of io geo d c) es d k real.1 (omega arith) in
      let linked = next_cluster-linked io geo l g c d d real.0.1 refl h in
      (x, c ∷ pre, post, ground arith, ap (λ xs. c ∷ xs) e, ap suc len, rest)

  -- Where an offset stands: in cluster `k` of the chain, `r` bytes behind its start.
  offset_place :
      (offset len n span : ℕ)
      → 1 ≤ span
      → 1 ≤ len
      → offset + len ≤ n * span
      → (offset / span < n)
        × (offset % span < span)
        × (offset / span * span + offset % span ≡ offset)
  offset_place offset len n span pos some_bytes fits =
      let whole : offset % span + offset / span * span ≡ offset = mod-add-div' offset span in
      let small : offset % span < span = grind arith in
      let inside : offset / span < n = elim (dec_lt (offset / span) n) [
        | yes lt ↦ lt
        | no ge ↦ absurd (omega (arith, times_mono n (offset / span) span (omega arith), whole))
      ] in
      (inside, small, omega (arith, whole))

  write_from-content_of :
      (first offset : ℕ) (cs : List ℕ) (bytes : Bytes) (d : io.Disk)
      → Links (entry_of io geo d) first cs
      → All (IsCluster geo) cs
      → 1 ≤ length bytes
      → offset + length bytes ≤ length cs * geo.cluster_size
      → (d' : io.Disk) × (write_from io geo first offset bytes d ≡ (ok (offset + length bytes), d'))
        × (content_of io geo d' cs ≡ copy_to offset bytes (content_of io geo d cs))
        × ((t : ℕ) → t < geo.data_start_sector → io.read d' t ≡ io.read d t)
  unfolding write_from
  write_from-content_of first offset cs bytes d k real some_bytes fits =
      let span : 1 ≤ geo.cluster_size = omega (arith, g.cluster_span, g.has_sectors) in
      let (inside, small, place) =
        offset_place offset (length bytes) (length cs) geo.cluster_size span some_bytes fits in
      let (x, pre, post, walked, e, len, rest) =
        advance-Links (offset / geo.cluster_size) first cs d k real inside in
      let (real_pre, real_post) = All-parts (IsCluster geo) pre post (rw e at real) in
      let (dis, apart) =
        Distinct-parts pre post (rw e at (Links-Distinct (entry_of io geo d) first cs k)) in
      let (d', run, (put, low, kept)) =
        write_chunks-content_of io geo l g (length bytes) x (offset % geo.cluster_size)
          (geo.cluster_size - offset % geo.cluster_size) post bytes d rest real_post dis
          (omega arith) (omega arith) (omega arith)
          (room_left (offset / geo.cluster_size) (length post) (length cs) geo.cluster_size
            (offset % geo.cluster_size) (length bytes) offset place
            (ap length e ∙ length-append pre post ∙ ap (λ (n : ℕ). n + length post) len) fits) in
      let front : content_of io geo d' pre ≡ content_of io geo d pre =
        content_of-same io geo d d' pre (
          All-both (IsCluster geo) (λ y. Fresh y post) _ pre (λ y is f. kept y is f) real_pre
            apart) in
      (
        d',
        ground arith,
        ap (content_of io geo d') e
            ∙ content_of-append io geo d' pre post
            ∙ ap₂ (λ (a b : Bytes). a ++ b) front put
            ∙ sym (
                copy_to-right (offset / geo.cluster_size * geo.cluster_size)
                  (offset % geo.cluster_size) bytes (content_of io geo d pre)
                  (content_of io geo d post)
                  (length-content_of d pre real_pre ∙ ap (λ (n : ℕ). n * geo.cluster_size) len))
            ∙ ap₂ (λ (n : ℕ) (xs : Bytes). copy_to n bytes xs) place
                (sym (content_of-append io geo d pre post))
            ∙ ap (λ (xs : List ℕ). copy_to offset bytes (content_of io geo d xs)) (sym e),
        low,
      )

  -- The content of a chain is what `read_chain` reads.
  read_chain-content_of :
      (first : ℕ) (cs : List ℕ) (d : io.Disk)
      → Links (entry_of io geo d) first cs
      → All (IsCluster geo) cs
      → read_chain io geo first d ≡ (ok (content_of io geo d cs), d)
  unfolding read_chain
  read_chain-content_of first cs d k real =
      let listed =
        chain-Links io geo l g first cs d
          (head_of-Links (IsCluster geo) (entry_of io geo d) first cs k real).0 k
          (All-mono (IsCluster geo) (λ x. x < geo.total_clusters + 2) cs (λ x is. is.1) real) in
      let whole = read_clusters-content_of io geo l g cs d real in ground arith

  -- On a lawful disk with a well-formed volume, for a chain of clusters that the table links:
  -- `read_chain` reads the whole chain; `write_range` of any bytes at any offset, ending inside
  -- the chain, returns the same first cluster and the end; and `read_chain` then reads what it
  -- read before with those bytes put in at the offset, across sectors and clusters.
  pub write_range-read_chain :
      (first offset : ℕ) (cs : List ℕ) (bytes : Bytes) (d : io.Disk)
      → Links (entry_of io geo d) first cs
      → All (IsCluster geo) cs
      → offset + length bytes ≤ length cs * geo.cluster_size
      → (before : Bytes) × (d' : io.Disk) × (read_chain io geo first d ≡ (ok before, d))
        × (write_range io geo first offset bytes d ≡ (ok (first, offset + length bytes), d'))
        × (read_chain io geo first d' ≡ (ok (copy_to offset bytes before), d'))
        × (length before ≡ length cs * geo.cluster_size)
  unfolding write_range
  write_range-read_chain first offset cs [] d k real fits = (
    content_of io geo d cs,
    d,
    read_chain-content_of first cs d k real,
    ap (λ (n : ℕ). (ok (first, n), d)) (sym (add-zero offset)),
    read_chain-content_of first cs d k real
        ∙ ap (λ (xs : Bytes). (ok xs, d)) (sym (copy_to-nil offset (content_of io geo d cs))),
    length-content_of d cs real,
  )
  write_range-read_chain first offset cs (b ∷ bytes) d k real fits =
      let (d', run, put, low) =
        write_from-content_of first offset cs (b ∷ bytes) d k real (omega arith) fits in
      let start : 2 ≤ first =
        (head_of-Links (IsCluster geo) (entry_of io geo d) first cs k real).0 in
      let same : All (λ x. entry_of io geo d' x ≡ entry_of io geo d x) cs =
        All-mono (IsCluster geo) (λ x. entry_of io geo d' x ≡ entry_of io geo d x) cs
          (λ x is. table_kept io geo l g d d' x low is.1) real in
      (
        content_of io geo d cs,
        d',
        read_chain-content_of first cs d k real,
        ground arith,
        read_chain-content_of first cs d'
              (Links-agree (entry_of io geo d) (entry_of io geo d') first cs k same) real
            ∙ ap (λ (xs : Bytes). (ok xs, d')) put,
        length-content_of d cs real,
      )
