-- ===== src/StrBuf.antt =====
-- src/common/strbuf.c: the string buffer, a growing byte array with a length and a capacity.
-- `int32_t` positions and `uint32_t` lengths are 32-bit patterns. A C string is the list of its
-- characters before the terminator, `none` where the pointer is NULL. `junk` is the byte that the
-- allocator leaves in memory that it hands out. An access outside the array is `none`.
pub mod Held
pub mod Gap
pub mod Splice
pub mod Edits
pub mod Substrings
use regex_markup.Common.{
  ℕ, suc, zero, ◌+◌, ◌-◌, ◌*◌, ◌<◌, ◌%◌, ◌≡◌, List, [], ◌∷◌, ◌++◌, Option, none, some, Bool, not,
  ltb, leb, ◌==◌, if◌then◌else◌, ◌>>=◌, length, take, drop, replicate, get_elem?, set, wrap32,
  add32, sub32, mul32, slt32, minus_one,
}
use regex_markup.Memory.{store_bytes, load_bytes, move_bytes, store_times}

pub record StrBuf : Type 0 where
  pub buf : List ℕ
  pub len : ℕ
  pub capacity : ℕ

-- `pos >= sb->len` compares as unsigned, since `len` is a `uint32_t`.
unfoldable pub normalize_strbuf_pos : StrBuf → ℕ → ℕ
normalize_strbuf_pos sb pos =
    if leb sb.len pos
    then sb.len
    else if not (slt32 pos 0)
    then pos
    else let pos' = add32 pos (add32 1 sb.len) in if not (slt32 pos' 0) then pos' else 0

unfoldable pub normalize_str_pos : Option (List ℕ) → ℕ → ℕ
normalize_str_pos none pos = 0
normalize_str_pos (some str) pos =
    if not (slt32 pos 0)
    then (if leb pos (length str) then pos else length str)
    else let pos' = add32 pos (add32 1 (length str)) in if not (slt32 pos' 0) then pos' else 0

-- SWAP_INT32 when out of order: the lower position, and the higher one.
unfoldable pub lower : ℕ → ℕ → ℕ
lower sp ep = if slt32 ep sp then ep else sp

unfoldable pub higher : ℕ → ℕ → ℕ
higher sp ep = if slt32 ep sp then sp else ep

-- The bytes that `substr+subsp` and `subep-subsp` name.
unfoldable pub substr_bytes : Option (List ℕ) → ℕ → ℕ → List ℕ
unfolding normalize_str_pos lower higher
substr_bytes none subsp subep = []
substr_bytes (some str) subsp subep =
    let sp = normalize_str_pos (some str) subsp in
    let ep = normalize_str_pos (some str) subep in
    take (higher sp ep - lower sp ep) (drop (lower sp ep) str)

unfoldable pub strbuf_length : StrBuf → ℕ
strbuf_length sb = sb.len

unfoldable pub strbuf_capacity : StrBuf → ℕ
strbuf_capacity sb = sb.capacity

unfoldable pub strbuf_char_at : StrBuf → ℕ → Option ℕ
unfolding normalize_strbuf_pos
strbuf_char_at sb sp = get_elem? sb.buf (normalize_strbuf_pos sb sp)

module _ (junk : ℕ) where
  unfoldable pub strbuf_new_with_capacity : ℕ → StrBuf
  strbuf_new_with_capacity capacity = record {
    buf = set (replicate capacity junk) 0 0;
    len = 0;
    capacity = capacity;
  }

  unfoldable pub strbuf_new : StrBuf
  unfolding strbuf_new_with_capacity
  strbuf_new = strbuf_new_with_capacity 16

  unfoldable pub strbuf_new_from_data_n : ℕ → List ℕ → Option StrBuf
  unfolding strbuf_new_with_capacity store_times store_bytes
  strbuf_new_from_data_n times mem = do
    let len = mul32 (length mem) times
    let sb = strbuf_new_with_capacity (add32 len 1)
    buf ← store_times times sb.buf 0 mem
    buf ← store_bytes buf len (0 ∷ [])
    some (record { buf = buf; len = len; capacity = sb.capacity })

  unfoldable pub strbuf_new_from_substring_n : ℕ → Option (List ℕ) → ℕ → ℕ → Option StrBuf
  unfolding strbuf_new_from_data_n substr_bytes
  strbuf_new_from_substring_n times substr subsp subep =
      strbuf_new_from_data_n times (substr_bytes substr subsp subep)

  unfoldable pub strbuf_new_from_char_n : ℕ → ℕ → Option StrBuf
  unfolding strbuf_new_from_substring_n
  strbuf_new_from_char_n times ch =
      strbuf_new_from_substring_n times (some (if ch == 0 then [] else ch ∷ [])) 0 1

  -- `xrealloc` keeps the old bytes; what it adds is junk.
  unfoldable pub realloc_to : StrBuf → ℕ → StrBuf
  realloc_to sb capacity =
      let buf = sb.buf ++ replicate (capacity - sb.capacity) junk in
      record sb { capacity = capacity; buf = (if sb.len == 0 then set buf 0 0 else buf) }

  unfoldable pub strbuf_ensure_capacity : StrBuf → ℕ → StrBuf
  unfolding realloc_to
  strbuf_ensure_capacity sb min_capacity =
      let doubled = wrap32 (sb.len * 2 + 2) in
      if ltb sb.capacity min_capacity
      then realloc_to sb (if ltb doubled min_capacity then min_capacity else doubled)
      else sb

  -- The tail, terminator included, moves to its new place.
  unfoldable pub open_gap : StrBuf → ℕ → ℕ → ℕ → Option StrBuf
  unfolding strbuf_ensure_capacity move_bytes
  open_gap sb sp ep addlen = do
    let dellen = ep - sp
    let sb' = strbuf_ensure_capacity sb (wrap32 (sub32 (add32 sb.len 1) dellen + addlen))
    buf ← move_bytes sb'.buf (sp + addlen) ep (sb.len + 1 - ep)
    some (record sb' { buf = buf; len = add32 sb.len (sub32 addlen dellen) })

  -- The replacement between two positions in order, behind their normalisation.
  unfoldable pub replace_between : StrBuf → ℕ → ℕ → ℕ → List ℕ → Option StrBuf
  unfolding open_gap store_times
  replace_between sb lo hi times mem = do
    let addlen = mul32 (length mem) times
    sb' ← if addlen == hi - lo then some sb else open_gap sb lo hi addlen
    buf ← if ltb 0 addlen then store_times times sb'.buf lo mem else some sb'.buf
    some (record sb' { buf = buf })

  unfoldable pub strbuf_replace_data_n : StrBuf → ℕ → ℕ → ℕ → List ℕ → Option StrBuf
  unfolding normalize_strbuf_pos lower higher replace_between
  strbuf_replace_data_n sb sp ep times mem =
      let p = normalize_strbuf_pos sb sp in
      let q = normalize_strbuf_pos sb ep in replace_between sb (lower p q) (higher p q) times mem

  unfoldable pub strbuf_replace_substring_n :
      StrBuf → ℕ → ℕ → ℕ → Option (List ℕ) → ℕ → ℕ → Option StrBuf
  unfolding strbuf_replace_data_n substr_bytes
  strbuf_replace_substring_n sb sp ep times substr subsp subep =
      strbuf_replace_data_n sb sp ep times (substr_bytes substr subsp subep)

  unfoldable pub strbuf_replace_char_n : StrBuf → ℕ → ℕ → ℕ → ℕ → Option StrBuf
  unfolding strbuf_replace_substring_n
  strbuf_replace_char_n sb sp ep times ch =
      strbuf_replace_substring_n sb sp ep times (some (if ch == 0 then [] else ch ∷ [])) 0 1

  -- The macros strbuf_replace, strbuf_append, strbuf_insert and strbuf_set.
  unfoldable pub strbuf_replace : StrBuf → ℕ → ℕ → Option (List ℕ) → Option StrBuf
  unfolding strbuf_replace_substring_n
  strbuf_replace sb sp ep str = strbuf_replace_substring_n sb sp ep 1 str 0 minus_one

  unfoldable pub strbuf_append : StrBuf → Option (List ℕ) → Option StrBuf
  unfolding strbuf_replace
  strbuf_append sb str = strbuf_replace sb minus_one minus_one str

  unfoldable pub strbuf_insert : StrBuf → ℕ → Option (List ℕ) → Option StrBuf
  unfolding strbuf_replace
  strbuf_insert sb sp str = strbuf_replace sb sp sp str

  unfoldable pub strbuf_set : StrBuf → Option (List ℕ) → Option StrBuf
  unfolding strbuf_replace
  strbuf_set sb str = strbuf_replace sb 0 minus_one str

  unfoldable pub strbuf_set_length : StrBuf → ℕ → Option StrBuf
  unfolding strbuf_ensure_capacity store_bytes
  strbuf_set_length sb new_length = do
    let sb' = strbuf_ensure_capacity sb (add32 new_length 1)
    buf ← store_bytes sb'.buf new_length (0 ∷ [])
    some (record sb' { buf = buf; len = new_length })

-- The copy, terminator overwritten: the text between the positions.
unfoldable pub strbuf_substring : StrBuf → ℕ → ℕ → Option (List ℕ)
unfolding normalize_strbuf_pos lower higher load_bytes
strbuf_substring sb sp ep = do
  let p = normalize_strbuf_pos sb sp
  let q = normalize_strbuf_pos sb ep
  str ← load_bytes sb.buf (lower p q) (higher p q - lower p q + 1)
  some (take (higher p q - lower p q) str)
