-- ===== src/Memory/Heap/Chain.antt =====
-- The list of kernel/src/memory/heap.rs in memory stands for its blocks: nodes that link them in order.
use vibra.Common.{
  ℕ, ◌+◌, ◌*◌, ◌/◌, ◌%◌, ◌≤◌, ◌<◌, ◌≡◌, ◌≢◌, refl, ◌∙◌, List, [], ◌∷◌, Option, none, some, true,
  arith,
}
use vibra.Memory.Heap.{
  FreeNode, FreeList, magic, size_span, node_size, header_ok, node_ok, with_size,
}
use vibra.Memory.Heap.Blocks.{Blocks, IsBlock, AreFree}

-- The first address of the blocks.
abbrev pub head_of : Blocks → Option ℕ
head_of [] = none
head_of ((a, s) ∷ bs) = some a

-- The node of a block of `s` bytes before the node at `next`.
abbrev pub entry : ℕ → Option ℕ → FreeNode
entry s next = record { size_magic = magic * size_span + s; next = next }

-- Memory holds the nodes of the blocks.
abbrev pub Holds : (ℕ → FreeNode) → Blocks → Type 0
Holds cells [] = Unit
Holds cells ((a, s) ∷ bs) = (cells a ≡ entry s (head_of bs)) × Holds cells bs

pub node_size-entry : (s : ℕ) (next : Option ℕ) → s < size_span → node_size (entry s next) ≡ s
unfolding node_size
node_size-entry s next small = omega arith

pub with_size-entry : (s : ℕ) (n : FreeNode) → s < size_span → with_size s n ≡ entry s n.next
unfolding with_size
with_size-entry s n small = let e : s % size_span ≡ s = omega arith in rw e refl

-- Every node of the blocks passes the tests.
pub node_ok-Holds :
    (fl : FreeList) (lo a s : ℕ) (next : Option ℕ)
    → IsBlock fl.regions lo a s
    → fl.cells a ≡ entry s next
    → node_ok a fl ≡ true
unfolding node_ok header_ok
node_ok-Holds fl lo a s next b at =
    let size = node_size-entry s next b.small in
    let stamp : (magic * size_span + s) / size_span ≡ magic = omega (arith, b.small) in
    let big = b.big in
    let fits = b.fits in
    let reach = b.reach in rw (b.home, node_ok) (rw at (rw (size, stamp) (ground arith)))

-- Changes below the blocks do not touch them.
pub Holds-frame :
    (regions : List (ℕ × ℕ)) (lo : ℕ) (cells cells' : ℕ → FreeNode) (bs : Blocks)
    → AreFree regions lo bs
    → ((x : ℕ) → lo < x → cells' x ≡ cells x)
    → Holds cells bs
    → Holds cells' bs
Holds-frame regions lo cells cells' [] free same h = tt
Holds-frame regions lo cells cells' ((a, s) ∷ bs) (b, free) same (at, h) = (
  same a b.gap ∙ at,
  Holds-frame regions (a + s) cells cells' bs free
      (λ x above. same x (let g = b.gap in omega arith)) h,
)

-- `fl'` is `fl` with the link before a place set to `to`.
abbrev pub IsLinked : Option ℕ → FreeList → FreeList → Option ℕ → Type 0
IsLinked none fl fl' to = fl'.head ≡ to
IsLinked (some p) fl fl' to =
    (fl'.cells p ≡ record { size_magic = (fl.cells p).size_magic; next = to })
    × (fl'.head ≡ fl.head)

-- The part of the list behind `prev`, above `lo`, has become the blocks `bs`; nothing at or below
-- `lo` has changed but the link of `prev`.
pub record Becomes (prev : Option ℕ) (lo : ℕ) (fl : FreeList) (bs : Blocks) (fl' : FreeList)
    : Type 0 where
  pub holds : Holds fl'.cells bs
  pub linked : IsLinked prev fl fl' (head_of bs)
  pub below : (x : ℕ) → x ≤ lo → prev ≢ some x → fl'.cells x ≡ fl.cells x
  pub same_regions : fl'.regions ≡ fl.regions
  pub same_total : fl'.total_bytes ≡ fl.total_bytes
