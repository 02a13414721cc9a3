-- ===== src/Fs/Disk/Memory.antt =====
-- A disk in memory of a given number of sectors: a disk behind `DiskIo` of kernel/src/fs/disk.rs that keeps
-- what is written.
use vibra.Common.{
  ℕ, ◌≡◌, refl, Option, none, some, ltb, ◌==◌, ◌&&◌, if◌then◌else◌, length, replicate,
  length-replicate, ==_iff, lt→ltb, ap, Bool-cases, inl, inr,
}
use vibra.Fs.Disk.{Bytes, DiskIo, IsLawful}

-- A sector that was never written is zeros.
abbrev pub whole : Bytes → Bytes
whole bytes = if length bytes == 512 then bytes else replicate 512 0

length-whole : (bytes : Bytes) → length (whole bytes) ≡ 512
length-whole bytes = elim (Bool-cases (length bytes == 512)) [
  | inl e ↦ rw e ((==_iff (length bytes) 512).0 e)
  | inr e ↦ rw e (length-replicate {A = ℕ} 512 0)
]

abbrev pub memory : ℕ → DiskIo
memory size = record {
  Disk = ℕ → Bytes;
  read = λ d s. if ltb s size then some (whole (d s)) else none;
  write = λ d s bytes.
      if ltb s size && length bytes == 512 then some (λ t. if s == t then bytes else d t) else none;
}

whole-full : (bytes : Bytes) → length bytes ≡ 512 → whole bytes ≡ bytes
whole-full bytes len = rw ((==_iff (length bytes) 512).1 len) refl

pub memory-IsLawful : (size : ℕ) → IsLawful (memory size) size
memory-IsLawful size = record {
  reads = λ d s lt. (whole (d s), rw (lt→ltb s size lt) refl);
  length-read = λ d s bytes e. elim (Bool-cases (ltb s size)) [
    | inl lt ↦
        let e' : some (whole (d s)) ≡ some bytes = rw lt at e in
        let same : whole (d s) ≡ bytes = cc in rw (← same) (length-whole (d s))
    | inr out ↦ let e' : ◌≡◌ {A = Option Bytes} none (some bytes) = rw out at e in absurd (cc)
  ];
  writes = λ d s bytes lt len. (
    (λ t. if s == t then bytes else d t),
    rw (lt→ltb s size lt, (==_iff (length bytes) 512).1 len) refl,
    rw (lt→ltb s size lt, (==_iff s s).1 refl) (ap some (whole-full bytes len)),
    λ t ne. elim (Bool-cases (s == t)) [
      | inl e ↦ absurd (ne ((==_iff s t).0 e))
      | inr e ↦ rw e refl
    ],
  );
}
