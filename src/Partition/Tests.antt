-- ===== src/Partition/Tests.antt =====
-- Runs of partition.rs on small disks, and the theorems on them.
use aether_kernel.Prelude.{
  ℕ, ◌+◌, ◌*◌, ◌/◌, ◌%◌, ◌||◌, not, true, false, leb, ◌≤◌, ◌<◌, ◌≡◌, refl, List, [], ◌∷◌, Option,
  none, some, arith, ◌==◌, if◌then◌else◌, length, ◌⊎◌,
}
use aether_kernel.Prelude.Bytes.{from_ne_bytes}
use aether_kernel.Partition.{
  BlockGeometry, MbrPartitionEntry, unfinished, found, slice, read_u32, read_u64, same_bytes,
  all_zero, gpt_entry, gpt_chunk, gpt_table, has_mbr_signature, parse_mbr_entry, read_lba,
  read_lba_span, read_lba_range, parse_gpt, extended_loop, parse_extended_partitions, parse_slots,
  parse_mbr, parse_partitions,
}
use aether_kernel.Partition.Mbr.{
  numbered, IsSearched, parse_mbr_lem, parse_extended_partitions-unfinished, parse_partitions_lem,
}
use aether_kernel.Partition.Gpt.{window, IsDisk, entries}
use aether_kernel.Partition.Gpt.Table.{parse_gpt_lem}

-- A disk of blocks of 512 bytes: its bytes that are not 0, by their places.
abbrev byte_at : List (ℕ × ℕ) → ℕ → ℕ
byte_at [] a = 0
byte_at ((place, byte) ∷ bytes) a = if place == a then byte else byte_at bytes a

-- A disk has 4096 blocks. It refuses an empty buffer, one that is no whole number of blocks, and a
-- read past its end.
abbrev read : (ℕ → ℕ) → ℕ → List ℕ → Option (ℕ × List ℕ)
read image lba buffer =
    let len = length buffer in
    if (len == 0) || (not (len % 512 == 0) || not (leb (lba + len / 512) 4096))
    then none
    else some (len, window image (lba * 512) len)

read-IsDisk : (image : ℕ → ℕ) → IsDisk (read image) image 512 4096
read-IsDisk image lba n buffer p h =
    let some_bytes : (length buffer == 0) ≡ false = ground (arith, h) in
    let whole : (length buffer % 512 == 0) ≡ true = ground (arith, h) in
    let blocks : length buffer / 512 ≡ n = omega (arith, h) in
    rw (some_bytes, whole, blocks) (ground arith)

-- A boot record with two slots in use.
abbrev plain : ℕ → ℕ
plain = byte_at (
    (450, 131)
    ∷ (454, 8)
    ∷ (458, 100)
    ∷ (482, 131)
    ∷ (486, 200)
    ∷ (490, 50)
    ∷ (510, 85)
    ∷ (511, 170)
    ∷ [])

plain_partitions :
    parse_partitions (read plain) 0 (record { block_size = 512; block_count = 4096 })
    ≡ some (
        some (
          record { index = 1; first_lba = 8; block_count = 100 }
          ∷ record { index = 2; first_lba = 200; block_count = 50 }
          ∷ []))
unfolding parse_partitions parse_gpt read_lba same_bytes parse_mbr has_mbr_signature parse_slots
    parse_mbr_entry slice read_u32 from_ne_bytes
plain_partitions = refl

-- An extended record at block 4 that names itself as the next.
abbrev looped : ℕ → ℕ
looped = byte_at (
    (450, 5)
    ∷ (454, 4)
    ∷ (458, 100)
    ∷ (510, 85)
    ∷ (511, 170)
    ∷ (2514, 5)
    ∷ (2522, 1)
    ∷ (2558, 85)
    ∷ (2559, 170)
    ∷ [])

looped_partitions :
    parse_partitions (read looped) 3 (record { block_size = 512; block_count = 4096 }) ≡ none
unfolding parse_partitions parse_gpt read_lba same_bytes parse_mbr has_mbr_signature parse_slots
    parse_mbr_entry slice read_u32 from_ne_bytes parse_extended_partitions extended_loop
looped_partitions = refl

-- A table of two entries, the second in use.
abbrev guid : ℕ → ℕ
guid = byte_at (
    (512, 69)
    ∷ (513, 70)
    ∷ (514, 73)
    ∷ (515, 32)
    ∷ (516, 80)
    ∷ (517, 65)
    ∷ (518, 82)
    ∷ (519, 84)
    ∷ (584, 2)
    ∷ (592, 2)
    ∷ (596, 128)
    ∷ (1152, 1)
    ∷ (1184, 40)
    ∷ (1192, 99)
    ∷ [])

guid_partitions :
    parse_gpt (read guid) 512 ≡ some (record { index = 2; first_lba = 40; block_count = 60 } ∷ [])
unfolding parse_gpt read_lba same_bytes read_u64 read_u32 from_ne_bytes slice gpt_table
    read_lba_range read_lba_span gpt_chunk gpt_entry all_zero
guid_partitions = refl

parse_gpt_lem_example : parse_gpt (read guid) 512 ≡ some (entries guid 1024 128 2 0)
unfolding same_bytes from_ne_bytes
parse_gpt_lem_example =
    parse_gpt_lem (read guid) guid 512 4096 (read-IsDisk guid) (omega arith) (omega arith)
      (omega arith) (omega arith)

abbrev four_entries : List MbrPartitionEntry
four_entries =
    record { partition_type = 131; first_lba = 8; block_count = 100 }
    ∷ record { partition_type = 0; first_lba = 0; block_count = 0 }
    ∷ record { partition_type = 131; first_lba = 200; block_count = 50 }
    ∷ record { partition_type = 0; first_lba = 0; block_count = 0 }
    ∷ []

parse_mbr_lem_example : parse_mbr (read plain) 0 512 ≡ found 3 (numbered 1 four_entries)
unfolding read_lba same_bytes has_mbr_signature parse_mbr_entry slice read_u32 from_ne_bytes
parse_mbr_lem_example =
    parse_mbr_lem (read plain) 0 512 (window plain 0 512) four_entries refl refl refl
      (refl, refl, (refl, refl, (refl, refl, (refl, refl, tt))))

parse_extended_partitions-unfinished_example :
    parse_extended_partitions (read looped) 1000 512 4 1 [] ≡ unfinished
unfolding read_lba same_bytes has_mbr_signature parse_mbr_entry slice read_u32 from_ne_bytes
parse_extended_partitions-unfinished_example =
    parse_extended_partitions-unfinished (read looped) 1000 512 4 1 [] (window looped 2048 512)
      (record { partition_type = 0; first_lba = 0; block_count = 0 })
      (record { partition_type = 5; first_lba = 0; block_count = 1 }) (omega arith) refl refl refl
      refl (omega arith) refl refl

abbrev one_block : BlockGeometry
one_block = record { block_size = 512; block_count = 1 }

parse_partitions_lem_example :
    ((512 < 512) × (parse_partitions (read plain) 0 one_block ≡ some none))
    ⊎ ((512 ≤ 512)
        × IsSearched one_block
            (parse_gpt (read plain) 512)
            (parse_mbr (read plain) 0 512)
            (parse_partitions (read plain) 0 one_block))
parse_partitions_lem_example = parse_partitions_lem (read plain) 0 one_block
