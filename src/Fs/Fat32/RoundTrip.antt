-- ===== src/Fs/Fat32/RoundTrip.antt =====
-- Writing an entry of the table of kernel/src/fs/fat32.rs and reading the table back.
use vibra.Common.{ℕ, ◌+◌, ◌%◌, ◌^◌, ◌<◌, ◌≡◌, ◌≢◌, sym, ap, ◌∙◌, max, some, length, arith, inl, inr}
use native.Mathlib.Decide.{ℕ_discrete, dec_lt}
use vibra.Fs.{ok}
use vibra.Fs.Disk.{DiskIo, IsLawful}
use vibra.Fs.Fat32.{
  Geometry, u32_at, masked, mask_span, sector_in_fat, entry_in_sector, fat_get, fat_set,
}
use vibra.Fs.Fat32.Table.{u32_at-copy_to_self, u32_at-copy_to_apart}
use vibra.Fs.Fat32.Entries.{
  IsGeo, InTable, entry_of, entry_of-read, entry_of_same, bytes_of, copy_sector, new_sector,
  fat_set_lem, sector_in_fat-lt, sector-lt, copies_apart, length-sector, copies_fit, fat_get-IsGeo,
}

module _ (io : DiskIo) (geo : Geometry) {size : ℕ} (l : IsLawful io size) (g : IsGeo geo size) where
  -- The new value, in the sector put in.
  new_sector_self :
      (c v : ℕ) (d : io.Disk)
      → c < geo.total_clusters + 2
      → u32_at (new_sector io geo l g d c v) (entry_in_sector c) % mask_span ≡ v % mask_span
  new_sector_self c v d below =
      let buf = bytes_of (io.read d (geo.fat_start_sector + sector_in_fat c)) in
      let len : length buf ≡ 512 =
        length-sector io geo l g d (geo.fat_start_sector + sector_in_fat c)
          (omega (arith, sector-lt io geo l g 0 c (omega arith) below)) in
      omega (
        arith,
        u32_at-copy_to_self (entry_in_sector c) (masked (u32_at buf (entry_in_sector c)) v) buf
            (omega arith),
      )

  new_sector_apart :
      (c c' v : ℕ) (d : io.Disk)
      → c ≢ c'
      → sector_in_fat c ≡ sector_in_fat c'
      → u32_at (new_sector io geo l g d c v) (entry_in_sector c')
        ≡ u32_at
            (bytes_of (io.read d (geo.fat_start_sector + sector_in_fat c)))
            (entry_in_sector c')
  new_sector_apart c c' v d ne same =
      let buf = bytes_of (io.read d (geo.fat_start_sector + sector_in_fat c)) in
      u32_at-copy_to_apart (entry_in_sector c) (entry_in_sector c')
        (masked (u32_at buf (entry_in_sector c)) v) buf
        (elim (dec_lt c c') [ yes h ↦ inr (omega arith) | no h ↦ inl (omega arith) ])

  -- An entry of the sector put in that is not the one set.
  entry_of_apart :
      (c c' v : ℕ) (d d' : io.Disk)
      → c ≢ c'
      → sector_in_fat c ≡ sector_in_fat c'
      → io.read d' (geo.fat_start_sector + sector_in_fat c) ≡ some (new_sector io geo l g d c v)
      → entry_of io geo d' c' ≡ entry_of io geo d c'
  unfolding entry_of
  entry_of_apart c c' v d d' ne same first =
      let at : geo.fat_start_sector + sector_in_fat c' ≡ geo.fat_start_sector + sector_in_fat c =
        omega arith in
      entry_of-read io geo d' c' (new_sector io geo l g d c v) (ap (λ t. io.read d' t) at ∙ first)
      ∙ ap (λ (x : ℕ). x % mask_span) (new_sector_apart c c' v d ne same)
      ∙ ap (λ (t : ℕ). u32_at (bytes_of (io.read d t)) (entry_in_sector c') % mask_span) (sym at)

  -- Entry `c` is the value, the other entries and the sectors outside the table are as they were, and the
  -- copies of the entry's sector agree.
  abbrev pub Sets : ℕ → ℕ → io.Disk → io.Disk → Type 0
  Sets c v d d' =
      (entry_of io geo d' c ≡ v % 2 ^ 28)
      × ((c' : ℕ)
          → c ≢ c'
          → c' < geo.total_clusters + 2
          → entry_of io geo d' c' ≡ entry_of io geo d c')
      × ((t : ℕ) → ¬ InTable geo t → io.read d' t ≡ io.read d t)
      × ((k : ℕ)
          → k < max geo.fat_count 1
          → io.read d' (copy_sector geo (sector_in_fat c) k)
            ≡ io.read d' (geo.fat_start_sector + sector_in_fat c))

  -- On a lawful disk with a well-formed volume, for a cluster with an entry: `fat_set` succeeds,
  -- `fat_get` then reads the value's low 28 bits back, every other entry and every sector outside
  -- the table is as before, and all copies of the sector written are equal.
  pub fat_set-fat_get :
      (c v : ℕ) (d : io.Disk)
      → c < geo.total_clusters + 2
      → (d' : io.Disk) × (fat_set io geo c v d ≡ (ok tt, d'))
        × (fat_get io geo c d' ≡ (ok (v % 2 ^ 28), d'))
        × Sets c v d d'
  fat_set-fat_get c v d below =
      let (d', run, written, others) = fat_set_lem io geo l g c v d below in
      let first : io.read d' (geo.fat_start_sector + sector_in_fat c)
          ≡ some (new_sector io geo l g d c v) =
        ap (λ t. io.read d' t) (omega arith) ∙ written 0 (omega arith) in
      let mine : entry_of io geo d' c ≡ v % 2 ^ 28 =
        entry_of-read io geo d' c (new_sector io geo l g d c v) first
        ∙ new_sector_self c v d below in
      (
        d',
        run,
        fat_get-IsGeo io geo l g d' c below ∙ ap (λ (x : ℕ). (ok x, d')) mine,
        (
          mine,
          (λ c' ne below'. elim (ℕ_discrete (sector_in_fat c) (sector_in_fat c')) [
            | yes same ↦ entry_of_apart c c' v d d' ne same first
            | no apart ↦ entry_of_same io geo d d' c' (
                others (geo.fat_start_sector + sector_in_fat c') (λ k lt e.
                  copies_apart k (sector_in_fat c) (sector_in_fat c') geo.fat_size apart
                    (sector_in_fat-lt io geo l g c below) (sector_in_fat-lt io geo l g c' below')
                    (omega arith)))
          ]),
          (λ t out. others t (λ k lt e. out (
            omega arith,
            omega (
              arith,
              copies_fit k (max geo.fat_count 1) (sector_in_fat c) geo.fat_size lt
                  (sector_in_fat-lt io geo l g c below),
            ),
          ))),
          λ k lt. written k lt ∙ sym first,
        ),
      )
