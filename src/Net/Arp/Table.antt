-- ===== src/Net/Arp/Table.antt =====
-- The ARP table of kernel/src/net/arp.rs as a map, and what a reply teaches.
use vibra.Net.{ArpEntry}
use vibra.Net.Arp.{add_entry, lookup}
use vibra.Common.{
  ℕ, List, [], ◌∷◌, some, true, ◌≡◌, refl, if◌then◌else◌, bytes_eq, bytes_eq_iff, sym, ◌∙◌, inl,
  inr, Bool-cases,
}

-- After `add_entry`, its address is found with the hardware address entered last, and every other
-- address as before.
pub lookup-add_entry :
    (ip mac other : List ℕ) (table : List ArpEntry)
    → lookup other (add_entry ip mac table)
      ≡ (if bytes_eq ip other then some mac else lookup other table)
unfolding lookup add_entry
lookup-add_entry ip mac other [] = refl
lookup-add_entry ip mac other (e ∷ es) = elim (Bool-cases (bytes_eq e.ip ip)) [
  | inl same ↦
      let at : e.ip ≡ ip = (bytes_eq_iff _ _).0 same in
      rw (same, at)
        (elim (Bool-cases (bytes_eq ip other)) [ inl p ↦ rw p refl | inr p ↦ rw p refl ])
  | inr differs ↦ rw differs (elim (Bool-cases (bytes_eq e.ip other)) [
    | inl p ↦
        let at : e.ip ≡ other = (bytes_eq_iff _ _).0 p in
        elim (Bool-cases (bytes_eq ip other)) [
          | inl q ↦
              (let t : bytes_eq e.ip ip ≡ true =
                  (bytes_eq_iff _ _).1 (at ∙ sym ((bytes_eq_iff _ _).0 q)) in
                cc)
          | inr q ↦ rw (p, q) refl
        ]
    | inr p ↦ rw p (lookup-add_entry ip mac other es)
  ])
]
