-- ===== src/Unchained/Chunk.antt =====
-- packages/unchained-reader/src/chunk.ts: an index chunk, its header, and the search for the
-- appearances of an address in it. The bytes of the address are given. An error that is thrown is
-- `none`.
use evm_toolkit.Base.{
  ℕ, zero, suc, ◌+◌, ◌-◌, ◌*◌, ◌/◌, ◌%◌, ◌≤◌, ◌<◌, min, ◌≡◌, refl, sym, ap, ◌∙◌, ◌≢◌, ◌↔◌, ◌⊎◌, inl,
  inr, Bool, true, false, not, ◌&&◌, ◌||◌, Option, none, some, List, [], ◌∷◌, ◌++◌, map, arith, ltb,
  leb, ◌==◌, if◌then◌else◌, larger, or_else, is_some, Bool-cases, Option-cases, length, get_elem?,
  take, drop, last_or, filter, find, find_index_from, All, sum_where, sum_of, count_where,
  length-append, length-take, length-drop, All-append, All-map, sum_where-append, ltb→lt, lt→ltb,
  leb→le, le→leb,
}
pub mod Search

abbrev chunk_magic : ℕ
chunk_magic = 3735928559

abbrev header_width : ℕ
header_width = 44

abbrev addr_record_width : ℕ
addr_record_width = 28

abbrev app_record_width : ℕ
app_record_width = 8

pub record ChunkHeader : Type 0 where
  pub address_count : ℕ
  pub appearance_count : ℕ

pub record Appearance : Type 0 where
  pub block_number : ℕ
  pub transaction_index : ℕ

abbrev little_endian : List ℕ → Option ℕ
little_endian (a ∷ b ∷ c ∷ d ∷ rest) = some (a + 256 * b + 65536 * c + 16777216 * d)
little_endian _ = none

-- `view.getUint32(offset, true)`, which throws past the end.
abbrev pub u32_at : List ℕ → ℕ → Option ℕ
u32_at bytes offset = little_endian (drop offset bytes)

abbrev header_of : Option ℕ → Option ℕ → Option ChunkHeader
header_of (some addresses) (some appearances) =
    some (record { address_count = addresses; appearance_count = appearances })
header_of _ _ = none

abbrev is_magic : Option ℕ → Bool
is_magic none = false
is_magic (some magic) = magic == chunk_magic

unfoldable pub parse_chunk_header : List ℕ → Option ChunkHeader
parse_chunk_header bytes =
    if ltb (length bytes) header_width
    then none
    else if is_magic (u32_at bytes 0)
    then header_of (u32_at bytes 36) (u32_at bytes 40)
    else none

-- The sign of `compareAddressAt`: a byte past the end makes it NaN, which is not below 0.
pub data Comparison : Type 0 where
  below same above : Comparison

-- From the record on, byte by byte of the address.
abbrev pub compare_bytes : List ℕ → List ℕ → Comparison
compare_bytes bytes [] = same
compare_bytes [] (t ∷ target) = above
compare_bytes (b ∷ bytes) (t ∷ target) =
    let rest = compare_bytes bytes target in
    if b == t then rest else if ltb b t then below else above

abbrev pub record_offset : ℕ → ℕ
record_offset index = header_width + index * addr_record_width

abbrev pub compare_address_at : List ℕ → List ℕ → ℕ → Comparison
compare_address_at bytes target index = compare_bytes (drop (record_offset index) bytes) target

-- `(lo + hi) >>> 1` of 32 bits, where `past` is `hi + 1`.
abbrev pub middle : ℕ → ℕ → ℕ
middle lo past = ((lo + past - 1) % 4294967296) / 2

-- The loop `while (lo <= hi)`, with `past` for `hi + 1`.
pub search_from : List ℕ → List ℕ → ℕ → ℕ → ℕ → Option ℕ
search_from bytes target zero lo past = none
search_from bytes target (suc fuel) lo past =
    let mid = middle lo past in
    let upper = search_from bytes target fuel (mid + 1) past in
    let lower = search_from bytes target fuel lo mid in
    if ltb lo past
    then elim (compare_address_at bytes target mid) [
      | below ↦ upper
      | same ↦ some mid
      | above ↦ lower
    ]
    else none

-- The index of the record, where the source keeps its offset.
pub search : List ℕ → List ℕ → ℕ → Option ℕ
unfolding search_from
search bytes target address_count = search_from bytes target (suc address_count) 0 address_count

abbrev appearance_of : Option ℕ → Option ℕ → Option (List Appearance) → Option (List Appearance)
appearance_of (some block) (some index) (some rest) =
    some (record { block_number = block; transaction_index = index } ∷ rest)
appearance_of _ _ _ = none

-- `count` appearances from the record at `offset` bytes on.
pub read_appearances : List ℕ → ℕ → ℕ → Option (List Appearance)
read_appearances bytes offset zero = some []
read_appearances bytes offset (suc count) =
    let rest = read_appearances bytes (offset + app_record_width) count in
    appearance_of (u32_at bytes offset) (u32_at bytes (offset + 4)) rest

abbrev slice_of : List ℕ → ℕ → Option ℕ → Option ℕ → Option (List Appearance)
slice_of bytes table (some offset) (some count) =
    read_appearances bytes (table + offset * app_record_width) count
slice_of bytes table _ _ = none

-- The appearances of the address record at this index.
unfoldable pub appearances_at : List ℕ → ℕ → ℕ → Option (List Appearance)
unfolding read_appearances
appearances_at bytes address_count index =
    slice_of bytes (record_offset address_count) (u32_at bytes (record_offset index + 20))
      (u32_at bytes (record_offset index + 24))

abbrev pub found_or_none : List ℕ → ℕ → Option ℕ → Option (List Appearance)
found_or_none bytes address_count none = some []
found_or_none bytes address_count (some index) = appearances_at bytes address_count index

unfoldable pub appearances_of : List ℕ → List ℕ → Option (List Appearance)
unfolding search
appearances_of bytes target = elim (parse_chunk_header bytes) [
  | none ↦ none
  | some header ↦
      found_or_none bytes header.address_count (search bytes target header.address_count)
]
