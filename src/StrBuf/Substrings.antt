-- ===== src/StrBuf/Substrings.antt =====
-- src/common/strbuf.c: strbuf_reverse_substring and strbuf_repeat_substring.
use regex_markup.Common.{
  ℕ, zero, suc, ◌+◌, ◌-◌, List, Option, some, ◌>>=◌, ◌==◌, if◌then◌else◌, add32, sub32, mul32,
  slt32,
}
use regex_markup.Memory.{load_bytes, store_bytes, move_bytes}
use regex_markup.StrBuf.{StrBuf, normalize_strbuf_pos, strbuf_ensure_capacity}

-- `while (sp < ep)`, on as many rounds as the length of the text: the positions are no further apart.
unfoldable pub swap_loop : ℕ → (buf : List ℕ) → (sp ep : ℕ) → Option (List ℕ)
unfolding load_bytes store_bytes
swap_loop zero buf sp ep = some buf
swap_loop (suc k) buf sp ep =
    if slt32 sp ep
    then (do
      a ← load_bytes buf sp 1
      b ← load_bytes buf ep 1
      buf ← store_bytes buf sp b
      buf ← store_bytes buf ep a
      swap_loop k buf (add32 sp 1) (sub32 ep 1))
    else some buf

unfoldable pub strbuf_reverse_substring : StrBuf → ℕ → ℕ → Option StrBuf
unfolding normalize_strbuf_pos swap_loop
strbuf_reverse_substring sb sp ep = do
  buf ← swap_loop sb.len sb.buf (normalize_strbuf_pos sb sp) (normalize_strbuf_pos sb ep)
  some (record sb { buf = buf })

-- `for (; times > 0; times--)`
unfoldable pub copy_times : ℕ → (buf : List ℕ) → (p sp n : ℕ) → Option (List ℕ)
unfolding move_bytes
copy_times zero buf p sp n = some buf
copy_times (suc times) buf p sp n = do
  buf ← move_bytes buf p sp n
  copy_times times buf (add32 p n) sp n

unfoldable pub strbuf_repeat_substring : (junk : ℕ) → StrBuf → ℕ → ℕ → (times : ℕ) → Option StrBuf
unfolding normalize_strbuf_pos strbuf_ensure_capacity move_bytes copy_times
strbuf_repeat_substring junk sb sp ep times =
    let p = normalize_strbuf_pos sb sp in
    let q = normalize_strbuf_pos sb ep in
    let addlen = mul32 (sub32 q p) (sub32 times 1) in
    if addlen == 0 then some sb else do
      let sb' = strbuf_ensure_capacity junk sb (add32 (add32 sb.len 1) addlen)
      buf ← move_bytes sb'.buf (add32 p addlen) q (sb.len + 1 - q)
      buf ← copy_times times buf q p (sub32 q p)
      some (record sb' { buf = buf; len = add32 sb.len addlen })
