-- ===== src/Arp/Table.antt =====
-- The table of kernel/src/net/arp.c: what a lookup finds after entries have been added.
use nocturne_os_base.Prelude.{
  ℕ, zero, suc, ◌+◌, ◌%◌, ◌<◌, none, some, List, [], ◌∷◌, ◌==◌, if◌then◌else◌, length, set, take,
  drop, length-set, ◌≡◌, refl, arith,
}
use nocturne_os_base.Arp.{ArpTableEntry, ArpTable, arp_lookup_add, lookup_entries, arp_lookup}

-- The table has its 128 entries and the next place is one of them.
pub record IsValid (s : ArpTable) : Type 0 where
  pub full : length s.entries ≡ 128
  pub inside : s.curr < 128

lookup-set :
    (es : List ArpTableEntry) (i ip mac asked : ℕ)
    → i < length es
    → lookup_entries (set es i (record { ip_addr = ip; mac_addr = mac })) asked
      ≡ (elim (lookup_entries (take i es) asked) [
        | some m ↦ some m
        | none ↦ if ip == asked then some mac else lookup_entries (drop (suc i) es) asked
      ])
unfolding lookup_entries
lookup-set [] i ip mac asked lt = absurd (omega arith)
lookup-set (e ∷ es) zero ip mac asked lt = refl
lookup-set (e ∷ es) (suc i) ip mac asked lt =
    ground (arith, lookup-set es i ip mac asked (omega arith))

-- What `arp_lookup` finds after `arp_lookup_add`: an older entry for the address at a lower index, if there is one; else the
-- new one for its address; else an entry behind it. The place that was written moves on by one, modulo 128, and the
-- table stays well-formed.
pub arp_lookup-arp_lookup_add :
    (s : ArpTable) (mac ip asked : ℕ)
    → IsValid s
    → (arp_lookup (arp_lookup_add mac ip s) asked
        ≡ (elim (lookup_entries (take s.curr s.entries) asked) [
          | some m ↦ some m
          | none ↦
              if ip == asked then some mac else lookup_entries (drop (suc s.curr) s.entries) asked
        ]))
      × ((arp_lookup_add mac ip s).curr ≡ (s.curr + 1) % 128)
      × IsValid (arp_lookup_add mac ip s)
unfolding arp_lookup arp_lookup_add
arp_lookup-arp_lookup_add s mac ip asked valid = (
  lookup-set s.entries s.curr ip mac asked (omega (arith, valid.full, valid.inside)),
  ground (arith, valid.inside),
  record {
    full =
        ground (
          arith,
          length-set s.entries s.curr (record { ip_addr = ip; mac_addr = mac }),
          valid.full,
        );
    inside = ground (arith, valid.inside);
  },
)
