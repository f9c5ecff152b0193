-- ===== src/Partition.antt =====
-- aether-kernel/libs/aether-drivers/src/block/partition.rs: the partitions of a disk, found in its
-- tables. The disk is a parameter: what a call of `read_blocks` returns for a block and a buffer, the
-- number of bytes read with the buffer after it, or `none` for an error. The errors here, of which the
-- source keeps nothing, are `none`. A slice within a sector of 512 bytes or more is never out of range.
mod Tests
pub mod Gpt
pub mod Mbr
use aether_kernel.Prelude.{
  ℕ, zero, suc, ◌+◌, ◌-◌, ◌*◌, ◌/◌, ◌%◌, ◌^◌, min, max, Bool, true, false, not, ◌&&◌, ◌||◌, List,
  [], ◌∷◌, ◌++◌, Option, none, some, ltb, leb, ◌==◌, if◌then◌else◌, length, take, drop, replicate,
}
use aether_kernel.Prelude.Bytes.{from_ne_bytes}

pub record BlockGeometry : Type 0 where
  pub block_size : ℕ
  pub block_count : ℕ

pub record PartitionEntry : Type 0 where
  pub index : ℕ
  pub first_lba : ℕ
  pub block_count : ℕ

pub record MbrPartitionEntry : Type 0 where
  pub partition_type : ℕ
  pub first_lba : ℕ
  pub block_count : ℕ

infixl 5 ◌>>=◌
abbrev pub ◌>>=◌ {ℓ κ} : {A : Type ℓ} {B : Type κ} → Option A → (A → Option B) → Option B
none >>= f = none
some a >>= f = f a

abbrev pub u64_max : ℕ
u64_max = 2 ^ 64 - 1

abbrev pub saturating_add : ℕ → ℕ → ℕ
saturating_add a b = min (a + b) u64_max

abbrev pub saturating_mul : ℕ → ℕ → ℕ
saturating_mul a b = min (a * b) u64_max

-- `get(offset..offset + n)`.
unfoldable pub slice : List ℕ → ℕ → ℕ → Option (List ℕ)
slice bytes offset n =
    if ltb (length bytes) (offset + n) then none else some (take n (drop offset bytes))

abbrev pub number_of : Option (List ℕ) → Option ℕ
number_of none = none
number_of (some bytes) = some (from_ne_bytes bytes)

unfoldable pub read_u32 : List ℕ → ℕ → Option ℕ
read_u32 bytes offset = number_of (slice bytes offset 4)

unfoldable pub read_u64 : List ℕ → ℕ → Option ℕ
read_u64 bytes offset = number_of (slice bytes offset 8)

-- Whether bytes are the given ones.
unfoldable pub same_bytes : List ℕ → List ℕ → Bool
same_bytes [] [] = true
same_bytes [] (y ∷ ys) = false
same_bytes (x ∷ xs) [] = false
same_bytes (x ∷ xs) (y ∷ ys) = (x == y) && same_bytes xs ys

abbrev pub gpt_signature : List ℕ
gpt_signature = 69 ∷ 70 ∷ 73 ∷ 32 ∷ 80 ∷ 65 ∷ 82 ∷ 84 ∷ []

unfoldable pub has_mbr_signature : List ℕ → Bool
has_mbr_signature sector = same_bytes (take 2 (drop 510 sector)) (85 ∷ 170 ∷ [])

unfoldable pub all_zero : List ℕ → Bool
all_zero [] = true
all_zero (b ∷ bytes) = (b == 0) && all_zero bytes

-- One entry of a table of the GUID kind: whether it can be read, and the partition that it may be.
unfoldable pub gpt_entry : List ℕ → ℕ → Option (Option PartitionEntry)
gpt_entry entry index = if all_zero (take 16 entry) then some none else (do
  first ← read_u64 entry 32
  last ← read_u64 entry 40
  some (
      if (first == 0) || ltb last first
      then none
      else some (record {
        index = index;
        first_lba = first;
        block_count = saturating_add (last - first) 1;
      })))

abbrev pub prepend : Option PartitionEntry → List PartitionEntry → List PartitionEntry
prepend none rest = rest
prepend (some p) rest = p ∷ rest

-- The entries of a chunk of the table from `chunk_index` on, `n` of them.
unfoldable pub gpt_chunk : ℕ → List ℕ → ℕ → ℕ → ℕ → Option (List PartitionEntry)
gpt_chunk zero chunk entry_size chunk_index index = some []
gpt_chunk (suc n) chunk entry_size chunk_index index = do
  entry ← slice chunk (chunk_index * entry_size) entry_size
  p ← gpt_entry entry (index + chunk_index + 1)
  rest ← gpt_chunk n chunk entry_size (chunk_index + 1) index
  some (prepend p rest)

abbrev pub is_extended : ℕ → Bool
is_extended t = (t == 5) || (t == 15) || (t == 133)

unfoldable pub parse_mbr_entry : List ℕ → Option MbrPartitionEntry
parse_mbr_entry bytes = do
  t ← slice bytes 4 1
  first ← read_u32 bytes 8
  count ← read_u32 bytes 12
  some (record { partition_type = from_ne_bytes t; first_lba = first; block_count = count })

-- The entry of a slot of the table in a sector.
abbrev pub slot_entry : List ℕ → ℕ → Option MbrPartitionEntry
slot_entry sector slot = parse_mbr_entry (take 16 (drop (446 + slot * 16) sector))

abbrev pub saturating_next : ℕ → ℕ
saturating_next index = min (index + 1) (2 ^ 32 - 1)

-- The partitions found so far and the index of the next; or the rounds have run out before the end of
-- a chain, or a read has failed.
pub data Found : Type 0 where
  unfinished failed : Found
  found : (next_index : ℕ) (partitions : List PartitionEntry) → Found

abbrev pub and_then : Found → (ℕ → List PartitionEntry → Found) → Found
and_then unfinished f = unfinished
and_then failed f = failed
and_then (found i ps) f = f i ps

abbrev pub with_sector {ℓ} : {A : Type ℓ} → Option A → (A → Found) → Found
with_sector none f = failed
with_sector (some a) f = f a

-- A partition behind those found, unless it is empty.
abbrev pub push : ℕ → ℕ → ℕ → List PartitionEntry → (ℕ → List PartitionEntry → Found) → Found
push first count i ps f =
    if count == 0
    then f i ps
    else f (saturating_next i)
        (ps ++ (record { index = i; first_lba = first; block_count = count } ∷ []))

abbrev pub filled : ℕ → Option (ℕ × List ℕ) → Option (List ℕ)
filled len none = none
filled len (some (n, buffer)) = if ltb n len then none else some buffer

abbrev pub whole_device_partition : BlockGeometry → PartitionEntry
whole_device_partition geometry = record {
  index = 1;
  first_lba = 0;
  block_count = geometry.block_count;
}

-- The partitions, the whole device if a table shows none; `none` when the rounds run out.
abbrev pub or_whole : BlockGeometry → Found → Option (List PartitionEntry)
or_whole geometry unfinished = none
or_whole geometry failed = some (whole_device_partition geometry ∷ [])
or_whole geometry (found i []) = some (whole_device_partition geometry ∷ [])
or_whole geometry (found i (p ∷ ps)) = some (p ∷ ps)

abbrev pub or_mbr :
    Option (List PartitionEntry) → Option (List PartitionEntry) → Option (List PartitionEntry)
or_mbr none otherwise = otherwise
or_mbr (some []) otherwise = otherwise
or_mbr (some (p ∷ ps)) otherwise = some (p ∷ ps)

abbrev pub ended : Option (List PartitionEntry) → Option (Option (List PartitionEntry))
ended none = none
ended (some ps) = some (some ps)

-- The outer `none` is a search that has not ended, the inner one the error of the source.
module _ (read_blocks : ℕ → List ℕ → Option (ℕ × List ℕ)) where
  unfoldable pub read_lba : ℕ → ℕ → Option (List ℕ)
  read_lba lba block_size = filled block_size (read_blocks lba (replicate block_size 0))

  unfoldable pub read_lba_span : ℕ → ℕ → ℕ → Option (List ℕ)
  read_lba_span lba blocks block_size =
      let len = saturating_mul blocks block_size in filled len (read_blocks lba (replicate len 0))

  unfoldable pub read_lba_range : ℕ → ℕ → ℕ → ℕ → Option (List ℕ)
  read_lba_range lba offset_bytes len block_size =
      if len == 0
      then some []
      else if ltb u64_max (offset_bytes % block_size + len)
      then none
      else (do
        buffer ←
            read_lba_span (saturating_add lba (offset_bytes / block_size))
              ((offset_bytes % block_size + len + block_size - 1) / block_size) block_size
        slice buffer (offset_bytes % block_size) len)

  -- At most `n` rounds of the loop over chunks of the table, each of one entry or more.
  unfoldable pub gpt_table : ℕ → ℕ → ℕ → ℕ → ℕ → ℕ → Option (List PartitionEntry)
  gpt_table zero block_size entry_lba entry_count entry_size index = some []
  gpt_table (suc n) block_size entry_lba entry_count entry_size index =
      if leb entry_count index
      then some []
      else (let chunk_entries = min (entry_count - index) (max (65536 / entry_size) 1) in
          do
            chunk ←
                read_lba_range entry_lba (saturating_mul index entry_size)
                  (saturating_mul chunk_entries entry_size) block_size
            here ← gpt_chunk chunk_entries chunk entry_size 0 index
            rest ← gpt_table n block_size entry_lba entry_count entry_size (index + chunk_entries)
            some (here ++ rest))

  unfoldable pub parse_gpt : ℕ → Option (List PartitionEntry)
  parse_gpt block_size = do
    header ← read_lba 1 block_size
    if not (same_bytes (take 8 header) gpt_signature) then none else (do
      entry_lba ← read_u64 header 72
      entry_count ← read_u32 header 80
      entry_size ← read_u32 header 84
      if (ltb entry_size 128 || ltb 4096 entry_size) || ((entry_count == 0) || ltb 1024 entry_count)
          then none
          else gpt_table entry_count block_size entry_lba entry_count entry_size 0)

  -- The chain of extended boot records, followed for at most `n` rounds.
  unfoldable pub extended_loop : ℕ → ℕ → ℕ → ℕ → ℕ → List PartitionEntry → Found
  extended_loop zero block_size base ebr_lba i ps = unfinished
  extended_loop (suc n) block_size base ebr_lba i ps =
      with_sector (read_lba ebr_lba block_size) λ sector.
        if not (has_mbr_signature sector)
        then found i ps
        else (with_sector (slot_entry sector 0) λ logical.
            push (saturating_add ebr_lba logical.first_lba) logical.block_count i ps λ i' ps'.
              with_sector (slot_entry sector 1) λ next.
                if (next.block_count == 0) || not (is_extended next.partition_type)
                then found i' ps'
                else extended_loop n block_size base (saturating_add base next.first_lba) i' ps')

  unfoldable pub parse_extended_partitions : ℕ → ℕ → ℕ → ℕ → List PartitionEntry → Found
  parse_extended_partitions rounds block_size base i ps =
      extended_loop rounds block_size base base i ps

  -- The slots of the table from `slot` on, `n` of them.
  unfoldable pub parse_slots : ℕ → ℕ → ℕ → List ℕ → ℕ → ℕ → List PartitionEntry → Found
  parse_slots rounds block_size zero sector slot i ps = found i ps
  parse_slots rounds block_size (suc n) sector slot i ps =
      with_sector (slot_entry sector slot) λ entry.
        if entry.block_count == 0
        then parse_slots rounds block_size n sector (slot + 1) i ps
        else (and_then
            (if is_extended entry.partition_type
              then parse_extended_partitions rounds block_size entry.first_lba i ps
              else push entry.first_lba entry.block_count i ps found)
            (parse_slots rounds block_size n sector (slot + 1)))

  unfoldable pub parse_mbr : ℕ → ℕ → Found
  parse_mbr rounds block_size = with_sector (read_lba 0 block_size) λ sector.
      if not (has_mbr_signature sector)
      then failed
      else parse_slots rounds block_size 4 sector 0 1 []

  unfoldable pub parse_partitions : ℕ → BlockGeometry → Option (Option (List PartitionEntry))
  parse_partitions rounds geometry =
      if ltb geometry.block_size 512 || (geometry.block_size == 0)
      then some none
      else ended (
          or_mbr (parse_gpt geometry.block_size)
            (or_whole geometry (parse_mbr rounds geometry.block_size)))
