-- ===== src/Memory/Heap/Links.antt =====
-- Writes to the nodes of kernel/src/memory/heap.rs: a node written whole, and a link set.
use vibra.Common.{ℕ, ◌≤◌, ◌<◌, ◌≡◌, ◌≢◌, refl, sym, ap, ◌∙◌, List, ◌∷◌, Option, none, some, arith}
use vibra.Memory.Heap.{FreeList, size_span, set_next, set_size, link}
use vibra.Memory.Heap.Blocks.{Blocks, AreFree}
use vibra.Memory.Heap.Chain.{head_of, entry, Holds, with_size-entry, Holds-frame, Becomes}

-- A node written whole, as `set_size` and `set_next` do.
abbrev pub put : ℕ → ℕ → Option ℕ → FreeList → FreeList
put a s next fl = set_next a next (set_size a s fl)

pub put-at :
    (a s : ℕ) (next : Option ℕ) (fl : FreeList)
    → s < size_span
    → (put a s next fl).cells a ≡ entry s next
unfolding set_next set_size
put-at a s next fl small = let e = with_size-entry s (fl.cells a) small in ground arith

pub put-other :
    (a s : ℕ) (next : Option ℕ) (fl : FreeList) (x : ℕ)
    → a ≢ x
    → (put a s next fl).cells x ≡ fl.cells x
unfolding set_next set_size
put-other a s next fl x ne = ground arith

pub put-same :
    (a s : ℕ) (next : Option ℕ) (fl : FreeList)
    → ((put a s next fl).head ≡ fl.head)
      × ((put a s next fl).regions ≡ fl.regions)
      × ((put a s next fl).total_bytes ≡ fl.total_bytes)
unfolding set_next set_size
put-same a s next fl = (refl, refl, refl)

-- Setting the link of a place at or below `lo`.
abbrev pub IsBelow : Option ℕ → ℕ → Type 0
IsBelow none lo = Unit
IsBelow (some p) lo = p ≤ lo

pub link-Becomes :
    (prev : Option ℕ) (lo : ℕ) (regions : List (ℕ × ℕ)) (fl : FreeList) (bs : Blocks)
    → IsBelow prev lo
    → AreFree regions lo bs
    → Holds fl.cells bs
    → Becomes prev lo fl bs (link prev (head_of bs) fl)
unfolding link set_next
link-Becomes none lo regions fl bs under free h = record {
  holds = h;
  linked = refl;
  below = λ x le ne. refl;
  same_regions = refl;
  same_total = refl;
}
link-Becomes (some p) lo regions fl bs under free h = record {
  holds =
      Holds-frame regions lo fl.cells _ bs free
        (λ x above. let ne : p ≢ x = omega arith in ground arith) h;
  linked = (ground arith, refl);
  below = λ x le ne. let ne' : p ≢ x = (λ e. ne (ap some e)) in ground arith;
  same_regions = refl;
  same_total = refl;
}

-- What was written above `lo` before a `Becomes` is part of it.
pub Becomes-after :
    (prev : Option ℕ) (lo : ℕ) (fl fl1 fl2 : FreeList) (bs : Blocks)
    → IsBelow prev lo
    → ((x : ℕ) → x ≤ lo → fl1.cells x ≡ fl.cells x)
    → fl1.head ≡ fl.head
    → fl1.regions ≡ fl.regions
    → fl1.total_bytes ≡ fl.total_bytes
    → Becomes prev lo fl1 bs fl2
    → Becomes prev lo fl bs fl2
Becomes-after none lo fl fl1 fl2 bs under same head regions total b = record {
  holds = b.holds;
  linked = b.linked;
  below = λ x le ne. b.below x le ne ∙ same x le;
  same_regions = b.same_regions ∙ regions;
  same_total = b.same_total ∙ total;
}
Becomes-after (some p) lo fl fl1 fl2 bs under same head regions total b = record {
  holds = b.holds;
  linked = (rw (same p under) at b.linked.0, b.linked.1 ∙ head);
  below = λ x le ne. b.below x le ne ∙ same x le;
  same_regions = b.same_regions ∙ regions;
  same_total = b.same_total ∙ total;
}

pub put-Holds :
    (a s : ℕ) (regions : List (ℕ × ℕ)) (fl : FreeList) (bs : Blocks)
    → s < size_span
    → AreFree regions a bs
    → Holds fl.cells bs
    → Holds (put a s (head_of bs) fl).cells ((a, s) ∷ bs)
put-Holds a s regions fl bs small free h = (
  put-at a s (head_of bs) fl small,
  Holds-frame regions a fl.cells _ bs free
      (λ x above. put-other a s (head_of bs) fl x (omega arith)) h,
)

-- The place before the list leads to `to`.
abbrev pub Leads : Option ℕ → FreeList → Option ℕ → Type 0
Leads none fl to = fl.head ≡ to
Leads (some p) fl to = (fl.cells p).next ≡ to

-- A part of the list whose first node stays in its place needs no new link.
pub Becomes-kept :
    (prev : Option ℕ) (lo a : ℕ) (fl fl' : FreeList) (bs : Blocks)
    → IsBelow prev lo
    → Leads prev fl (some a)
    → head_of bs ≡ some a
    → Holds fl'.cells bs
    → ((x : ℕ) → x ≤ lo → fl'.cells x ≡ fl.cells x)
    → fl'.head ≡ fl.head
    → fl'.regions ≡ fl.regions
    → fl'.total_bytes ≡ fl.total_bytes
    → Becomes prev lo fl bs fl'
Becomes-kept none lo a fl fl' bs under leads first h same head regions total = record {
  holds = h;
  linked = head ∙ leads ∙ sym first;
  below = λ x le ne. same x le;
  same_regions = regions;
  same_total = total;
}
Becomes-kept (some p) lo a fl fl' bs under leads first h same head regions total = record {
  holds = h;
  linked = (
    same p under
        ∙ ap (λ n. record { size_magic = (fl.cells p).size_magic; next = n }) (leads ∙ sym first),
    head,
  );
  below = λ x le ne. same x le;
  same_regions = regions;
  same_total = total;
}
