-- ===== src/Fs/Fat32/Write/Content.antt =====
-- `write_chunks` along a chain of kernel/src/fs/fat32.rs: the content with the bytes put in.
use vibra.Common.{
  ℕ, zero, suc, ◌+◌, ◌-◌, ◌*◌, ◌≤◌, ◌<◌, ◌≡◌, ◌≢◌, refl, sym, ap, ap₂, ◌∙◌, List, [], ◌∷◌, ◌++◌,
  false, length, take, drop, arith, length-take, length-drop, inl, inr, ◌⊎◌,
}
use vibra.Fs.{ok}
use vibra.Fs.Disk.{Bytes, DiskIo, IsLawful}
use vibra.Fs.Fat32.{Geometry, copy_to, is_last}
use vibra.Fs.Fat32.Entries.{IsGeo, entry_of, table_kept, fat_get-IsGeo}
use vibra.Fs.Fat32.Links.{
  Links, last_link, next_link, All, All-mono, All-map2, Fresh, Distinct, Links-agree,
}
use vibra.Fs.Fat32.Write.{chunks, write_cluster_range, next_cluster, write_chunks}
use vibra.Fs.Fat32.Write.Splice.{copy_to-nil, copy_to-append}
use vibra.Fs.Fat32.Write.Clusters.{
  IsCluster, cluster_bytes, content_of, content_of-same, length-cluster_bytes,
  write_cluster_range-copy_to, others_kept,
}

List-cases : (xs : Bytes) → (xs ≡ []) ⊎ ((x : ℕ) × (ys : Bytes) × (xs ≡ x ∷ ys))
List-cases [] = inl refl
List-cases (x ∷ ys) = inr (x, ys, refl)

chunks-nil : (n size room : ℕ) → chunks n size room [] ≡ []
unfolding chunks
chunks-nil zero size room = refl
chunks-nil (suc n) size room = refl

chunks-cons :
    (n size room : ℕ) (bytes : Bytes)
    → 1 ≤ n
    → 1 ≤ length bytes
    → (p : Bytes) × (ps : List Bytes) × (chunks n size room bytes ≡ p ∷ ps)
unfolding chunks
chunks-cons zero size room bytes h k = absurd (omega arith)
chunks-cons (suc n) size room [] h k = absurd (omega arith)
chunks-cons (suc n) size room (b ∷ bytes) h k = (_, _, refl)

rest_fits :
    (within room len k span : ℕ)
    → within + room ≡ span
    → within + len ≤ suc k * span
    → len - room ≤ k * span
rest_fits within room len k span e h =
    let times : suc k * span ≡ k * span + span = grind arith in omega arith

module _ (io : DiskIo) (geo : Geometry) {size : ℕ} (l : IsLawful io size) (g : IsGeo geo size) where
  -- The chain's content with `bytes` put in, and what is kept.
  abbrev pub Put : List ℕ → ℕ → Bytes → io.Disk → io.Disk → Type 0
  Put cs within bytes d d' =
      (content_of io geo d' cs ≡ copy_to within bytes (content_of io geo d cs))
      × ((t : ℕ) → t < geo.data_start_sector → io.read d' t ≡ io.read d t)
      × ((x : ℕ)
          → IsCluster geo x
          → Fresh x cs
          → cluster_bytes io geo d' x ≡ cluster_bytes io geo d x)

  -- The piece that is the last one.
  last_piece :
      (c within room : ℕ) (es : List ℕ) (bytes : Bytes) (d : io.Disk)
      → IsCluster geo c
      → All (IsCluster geo) es
      → Fresh c es
      → within + room ≡ geo.cluster_size
      → drop room bytes ≡ []
      → (d' : io.Disk) × (write_cluster_range io geo c within (take room bytes) d ≡ (ok tt, d'))
        × Put (c ∷ es) within bytes d d'
  unfolding content_of
  last_piece c within room es bytes d real reals fresh span done =
      let (d', run, written, others) =
        write_cluster_range-copy_to io geo l g c within (take room bytes) d real
          (omega (arith, g.cluster_span, length-take room bytes)) in
      let (low, kept) = others_kept io geo l g c d d' real others in
      (
        d',
        run,
        (
          ap₂ (λ (a b : Bytes). a ++ b) written
                (content_of-same io geo d d' es (
                    All-map2 (IsCluster geo) (λ x. c ≢ x) _ es (λ x is ne. kept x is ne) reals
                      fresh)
                  ∙ sym (copy_to-nil 0 (content_of io geo d es))
                  ∙ ap (λ (xs : Bytes). copy_to 0 xs (content_of io geo d es)) (sym done))
              ∙ sym (
                  copy_to-append within room bytes (cluster_bytes io geo d c)
                    (content_of io geo d es)
                    (omega (arith, length-cluster_bytes io geo l g d c real, g.cluster_span))),
          low,
          λ x is f. kept x is (λ e. f.0 (sym e)),
        ),
      )

  pub next_cluster-linked :
      (c : ℕ) (d d1 : io.Disk)
      → c < geo.total_clusters + 2
      → entry_of io geo d1 c ≡ entry_of io geo d c
      → is_last (entry_of io geo d c) ≡ false
      → next_cluster io geo c d1 ≡ (ok (entry_of io geo d c), d1)
  unfolding next_cluster
  next_cluster-linked c d d1 lt same goes =
      ground (arith, fat_get-IsGeo io geo l g d1 c lt, ap is_last same)

  -- The piece and then the pieces of the clusters behind.
  write_chunks-next :
      (c next within : ℕ) (first : Bytes) (k : Bytes) (ks : List Bytes) (d d1 : io.Disk)
      → write_cluster_range io geo c within first d ≡ (ok tt, d1)
      → next_cluster io geo c d1 ≡ (ok next, d1)
      → write_chunks io geo c within (first ∷ k ∷ ks) d ≡ write_chunks io geo next 0 (k ∷ ks) d1
  unfolding write_chunks
  write_chunks-next c next within first k ks d d1 run linked = ground arith

  pub write_chunks-content_of :
      (n c within room : ℕ) (cs : List ℕ) (bytes : Bytes) (d : io.Disk)
      → Links (entry_of io geo d) c cs
      → All (IsCluster geo) cs
      → Distinct cs
      → within + room ≡ geo.cluster_size
      → 1 ≤ room
      → length bytes ≤ n
      → within + length bytes ≤ length cs * geo.cluster_size
      → (d' : io.Disk) × (write_chunks io geo c within (chunks n geo.cluster_size room bytes) d
          ≡ (ok tt, d'))
        × Put cs within bytes d d'
  unfolding write_chunks chunks content_of
  write_chunks-content_of n c within room cs [] d k real dis span some_room enough fits = (
    d,
    rw (chunks-nil n geo.cluster_size room) refl,
    (sym (copy_to-nil within _), (λ t lt. refl), λ x is f. refl),
  )
  write_chunks-content_of zero c within room cs (b ∷ bytes) d k real dis span some_room enough
        fits =
      absurd (omega arith)
  write_chunks-content_of (suc n) c within room cs (b ∷ bytes) d (last_link h) real dis span
        some_room enough fits =
      elim (List-cases (drop room (b ∷ bytes))) [
        | inl done ↦
            let (d', run, put) = last_piece c within room [] (b ∷ bytes) d real.0 tt tt span done in
            (d', rw (done, chunks-nil n geo.cluster_size geo.cluster_size) run, put)
        | inr (x, ys, e) ↦ absurd (omega (arith, ap length e, length-drop room (b ∷ bytes)))
      ]
  write_chunks-content_of (suc n) c within room cs (b ∷ bytes) d (next_link {cs = es} h k) real dis
        span some_room enough fits =
      elim (List-cases (drop room (b ∷ bytes))) [
        | inl done ↦
            let (d', run, put) =
              last_piece c within room es (b ∷ bytes) d real.0 real.1 dis.0 span done in
            (d', rw (done, chunks-nil n geo.cluster_size geo.cluster_size) run, put)
        | inr (x, ys, e) ↦
            let first = take room (b ∷ bytes) in
            let rest = drop room (b ∷ bytes) in
            let left : 1 ≤ length rest = omega (arith, ap length e) in
            let (d1, run, written, others) =
              write_cluster_range-copy_to io geo l g c within first d real.0
                (omega (arith, g.cluster_span, length-take room (b ∷ bytes))) in
            let (low, kept) = others_kept io geo l g c d d1 real.0 others in
            let same : All (λ y. entry_of io geo d1 y ≡ entry_of io geo d y) (c ∷ es) =
              All-mono (IsCluster geo) (λ y. entry_of io geo d1 y ≡ entry_of io geo d y) (c ∷ es)
                (λ y is. table_kept io geo l g d d1 y low is.1) real in
            let (d2, run2, (behind, low2, kept2)) =
              write_chunks-content_of n (entry_of io geo d c) 0 geo.cluster_size es rest d1
                (Links-agree (entry_of io geo d) (entry_of io geo d1) (entry_of io geo d c) es k
                  same.1)
                real.1 dis.1 (omega arith) (omega (arith, g.cluster_span, g.has_sectors))
                (omega (arith, length-drop room (b ∷ bytes)))
                (omega (
                  arith,
                  length-drop room (b ∷ bytes),
                  rest_fits within room (length (b ∷ bytes)) (length es) geo.cluster_size span fits,
                )) in
            let (p, ps, q) =
              chunks-cons n geo.cluster_size geo.cluster_size rest
                (omega (arith, length-drop room (b ∷ bytes))) left in
            let linked = next_cluster-linked c d d1 real.0.1 same.0 h in
            (
              d2,
              rw q (
                  write_chunks-next c (entry_of io geo d c) within first p ps d d1 run linked
                  ∙ (rw q at run2)),
              (
                ap₂ (λ (a z : Bytes). a ++ z) (kept2 c real.0 dis.0 ∙ written)
                      (behind
                        ∙ ap (copy_to 0 rest) (
                            content_of-same io geo d d1 es (
                              All-map2 (IsCluster geo) (λ y. c ≢ y) _ es (λ y is ne. kept y is ne)
                                real.1 dis.0)))
                    ∙ sym (
                        copy_to-append within room (b ∷ bytes) (cluster_bytes io geo d c)
                          (content_of io geo d es)
                          (omega
                            (arith, length-cluster_bytes io geo l g d c real.0, g.cluster_span))),
                (λ t lt. low2 t lt ∙ low t lt),
                λ y is f. kept2 y is f.1 ∙ kept y is (λ z. f.0 (sym z)),
              ),
            )
      ]
