-- ===== src/Partition/Mbr.antt =====
-- The tables in boot records, of partition.rs: a table of four slots, and chains of extended records.
use mathlib.Core.List.{append-nil, append_assoc}
use aether_kernel.Prelude.{
  ℕ, zero, suc, ◌+◌, ◌-◌, ◌^◌, ◌≤◌, ◌<◌, ◌≡◌, refl, sym, ap₂, ◌∙◌, min, true, false, ◌||◌, List, [],
  ◌∷◌, ◌++◌, Option, none, some, arith, ltb, ◌==◌, if◌then◌else◌, length, Bool-cases, ◌⊎◌, inl, inr,
}
use aether_kernel.Partition.{
  BlockGeometry, PartitionEntry, MbrPartitionEntry, Found, unfinished, failed, found, u64_max,
  saturating_add, is_extended, has_mbr_signature, slot_entry, read_lba, extended_loop,
  parse_extended_partitions, parse_slots, parse_mbr, parse_gpt, parse_partitions, or_mbr, or_whole,
  ended,
}

-- The entries of a table that are not empty, numbered from `i` on.
abbrev pub numbered : ℕ → List MbrPartitionEntry → List PartitionEntry
numbered i [] = []
numbered i (e ∷ es) =
    if e.block_count == 0
    then numbered i es
    else (record { index = i; first_lba = e.first_lba; block_count = e.block_count }
        ∷ numbered (i + 1) es)

-- The entries are those of the slots from `slot` on; none of them is that of an extended record.
abbrev pub IsTable : List ℕ → ℕ → List MbrPartitionEntry → Type 0
IsTable sector slot [] = Unit
IsTable sector slot (e ∷ es) =
    (slot_entry sector slot ≡ some e)
    × (is_extended e.partition_type ≡ false)
    × IsTable sector (slot + 1) es

abbrev pub whole_device : BlockGeometry → List PartitionEntry
whole_device geometry = record { index = 1; first_lba = 0; block_count = geometry.block_count } ∷ []

-- What a search gives, by what the tables of the two kinds show.
abbrev pub IsSearched :
    BlockGeometry
    → Option (List PartitionEntry)
    → Found
    → Option (Option (List PartitionEntry))
    → Type 0
IsSearched geometry (some (p ∷ ps)) m r = r ≡ some (some (p ∷ ps))
IsSearched geometry g (found i (p ∷ ps)) r = r ≡ some (some (p ∷ ps))
IsSearched geometry g (found i []) r = r ≡ some (some (whole_device geometry))
IsSearched geometry g failed r = r ≡ some (some (whole_device geometry))
IsSearched geometry g unfinished r = r ≡ none

or_whole-IsSearched :
    (geometry : BlockGeometry) (g : Option (List PartitionEntry)) (m : Found)
    → IsSearched geometry g m (ended (or_mbr g (or_whole geometry m)))
or_whole-IsSearched geometry (some (p ∷ ps)) m = refl
or_whole-IsSearched geometry none unfinished = refl
or_whole-IsSearched geometry none failed = refl
or_whole-IsSearched geometry none (found i []) = refl
or_whole-IsSearched geometry none (found i (p ∷ ps)) = refl
or_whole-IsSearched geometry (some []) unfinished = refl
or_whole-IsSearched geometry (some []) failed = refl
or_whole-IsSearched geometry (some []) (found i []) = refl
or_whole-IsSearched geometry (some []) (found i (p ∷ ps)) = refl

module _ (read_blocks : ℕ → List ℕ → Option (ℕ × List ℕ)) where
  parse_slots-IsTable :
      (rounds block_size : ℕ) (sector : List ℕ) (slot i : ℕ) (es : List MbrPartitionEntry)
      (ps : List PartitionEntry)
      → IsTable sector slot es
      → i + length es < 2 ^ 32
      → parse_slots read_blocks rounds block_size (length es) sector slot i ps
        ≡ found (i + length (numbered i es)) (ps ++ numbered i es)
  unfolding parse_slots
  parse_slots-IsTable rounds block_size sector slot i [] ps t h =
      ap₂ found (omega arith) (sym (append-nil ps))
  parse_slots-IsTable rounds block_size sector slot i (e ∷ es) ps t h =
      elim (Bool-cases (e.block_count == 0)) [
        | inl z ↦
            rw (t.0, z)
              (parse_slots-IsTable rounds block_size sector (slot + 1) i es ps t.2
                (omega (arith, h)))
        | inr z ↦
            (let next : min (i + 1) (2 ^ 32 - 1) ≡ i + 1 = omega (arith, h) in
              let p : PartitionEntry = record {
                index = i;
                first_lba = e.first_lba;
                block_count = e.block_count;
              } in
              rw (t.0, z, t.1, next)
                (parse_slots-IsTable rounds block_size sector (slot + 1) (i + 1) es (ps ++ (p ∷ []))
                    t.2 (omega (arith, h))
                  ∙ ap₂ found (omega arith) (append_assoc ps (p ∷ []) (numbered (i + 1) es))))
      ]

  -- A boot record with its signature and a table of four entries, none of them that of an extended
  -- record: the partitions are the entries that are not empty, in the order of the slots and numbered
  -- from 1 without gaps, however few rounds a chain could take.
  pub parse_mbr_lem :
      (rounds block_size : ℕ) (sector : List ℕ) (es : List MbrPartitionEntry)
      → read_lba read_blocks 0 block_size ≡ some sector
      → has_mbr_signature sector ≡ true
      → length es ≡ 4
      → IsTable sector 0 es
      → parse_mbr read_blocks rounds block_size ≡ found (1 + length (numbered 1 es)) (numbered 1 es)
  unfolding parse_mbr
  parse_mbr_lem rounds block_size sector es p q four t =
      rw (p, q, ← four)
        (parse_slots-IsTable rounds block_size sector 0 1 es [] t (omega (arith, four)))

  extended_loop-unfinished :
      (n block_size base i : ℕ) (ps : List PartitionEntry) (sector : List ℕ)
      (logical next : MbrPartitionEntry)
      → saturating_add base next.first_lba ≡ base
      → read_lba read_blocks base block_size ≡ some sector
      → has_mbr_signature sector ≡ true
      → slot_entry sector 0 ≡ some logical
      → slot_entry sector 1 ≡ some next
      → (next.block_count == 0) ≡ false
      → is_extended next.partition_type ≡ true
      → extended_loop read_blocks n block_size base base i ps ≡ unfinished
  unfolding extended_loop
  extended_loop-unfinished zero block_size base i ps sector logical next back p q a b held ext =
      refl
  extended_loop-unfinished (suc n) block_size base i ps sector logical next back p q a b held ext =
      elim (Bool-cases (logical.block_count == 0)) [
        | inl z ↦
            rw (p, q, a, z, b, held, ext, back)
              (extended_loop-unfinished n block_size base i ps sector logical next back p q a b held
                ext)
        | inr z ↦
            rw (p, q, a, z, b, held, ext, back)
              (extended_loop-unfinished n block_size base _ _ sector logical next back p q a b held
                ext)
      ]

  -- A chain of extended records whose first record names itself as the next is followed for ever: no
  -- number of rounds brings it to an end.
  pub parse_extended_partitions-unfinished :
      (rounds block_size base i : ℕ) (ps : List PartitionEntry) (sector : List ℕ)
      (logical next : MbrPartitionEntry)
      → base ≤ u64_max
      → read_lba read_blocks base block_size ≡ some sector
      → has_mbr_signature sector ≡ true
      → slot_entry sector 0 ≡ some logical
      → slot_entry sector 1 ≡ some next
      → 0 < next.block_count
      → is_extended next.partition_type ≡ true
      → next.first_lba ≡ 0
      → parse_extended_partitions read_blocks rounds block_size base i ps ≡ unfinished
  unfolding parse_extended_partitions
  parse_extended_partitions-unfinished rounds block_size base i ps sector logical next h p q a b
        held ext back =
      extended_loop-unfinished rounds block_size base i ps sector logical next
        (omega (arith, back, h)) p q a b (ground (arith, held)) ext

  -- Blocks of less than 512 bytes are an error. Otherwise the search gives what the table of the GUID
  -- kind shows, if that is one partition or more; else what the boot record and its chains show, if
  -- that is one or more; else the whole device in one. It has no end only when the first shows none
  -- and a chain has not ended within the rounds.
  pub parse_partitions_lem :
      (rounds : ℕ) (geometry : BlockGeometry)
      → ((geometry.block_size < 512) × (parse_partitions read_blocks rounds geometry ≡ some none))
        ⊎ ((512 ≤ geometry.block_size)
            × IsSearched geometry
                (parse_gpt read_blocks geometry.block_size)
                (parse_mbr read_blocks rounds geometry.block_size)
                (parse_partitions read_blocks rounds geometry))
  unfolding parse_partitions
  parse_partitions_lem rounds geometry =
      elim (Bool-cases (ltb geometry.block_size 512 || (geometry.block_size == 0))) [
        | inl e ↦ inl (ground (arith, e), rw e refl)
        | inr e ↦ inr (
          ground (arith, e),
          rw e (
              or_whole-IsSearched geometry (parse_gpt read_blocks geometry.block_size)
                (parse_mbr read_blocks rounds geometry.block_size)),
        )
      ]
