-- ===== src/Tests/StrBuf.antt =====
-- src/common/strbuf.c on a small buffer.
use Prim.Native.Nat.{min}
use regex_markup.Common.{ℕ, ◌-◌, ◌≡◌, refl, List, [], ◌∷◌, some, arith, repeat, minus_one}
use regex_markup.StrBuf.{StrBuf, strbuf_replace_data_n, strbuf_replace, normalize_strbuf_pos}
use regex_markup.StrBuf.Substrings.{strbuf_reverse_substring, strbuf_repeat_substring}
use regex_markup.StrBuf.Held.{Holds, normalize_strbuf_pos-min}
use regex_markup.StrBuf.Splice.{splice, from_pos, to_pos, strbuf_replace_data_n-splice}
use regex_markup.StrBuf.Edits.{strbuf_replace-splice}

-- "abc" in an array of six bytes.
abbrev abc : List ℕ
abc = b'a' ∷ b'b' ∷ b'c' ∷ []

abbrev abc_buffer : StrBuf
abc_buffer = record { buf = b'a' ∷ b'b' ∷ b'c' ∷ 0 ∷ 7 ∷ 7 ∷ []; len = 3; capacity = 6 }

abc-Holds : Holds abc_buffer abc
abc-Holds = record { spare = 7 ∷ 7 ∷ []; bytes = refl; len = refl; capacity = refl }

strbuf_replace_data_n-splice_example :
    (sb' : StrBuf) × (strbuf_replace_data_n 7 abc_buffer 1 2 4 (b'x' ∷ b'y' ∷ []) ≡ some sb')
    × Holds sb' (splice abc (from_pos abc 1 2) (to_pos abc 1 2) (repeat 4 (b'x' ∷ b'y' ∷ [])))
strbuf_replace_data_n-splice_example =
    strbuf_replace_data_n-splice 7 abc_buffer abc 1 2 4 (b'x' ∷ b'y' ∷ []) abc-Holds (omega arith)

normalize_strbuf_pos-min_example :
    normalize_strbuf_pos abc_buffer (minus_one - 1) ≡ min (minus_one - 1) 3
normalize_strbuf_pos-min_example = normalize_strbuf_pos-min abc_buffer (minus_one - 1) (omega arith)

strbuf_replace-splice_example :
    (sb' : StrBuf) × (strbuf_replace 7 abc_buffer 2 1 (some (b'-' ∷ [])) ≡ some sb')
    × Holds sb' (splice abc (from_pos abc 2 1) (to_pos abc 2 1) (b'-' ∷ []))
strbuf_replace-splice_example =
    strbuf_replace-splice 7 abc_buffer abc abc-Holds 2 1 (some (b'-' ∷ [])) (omega arith)

-- The null byte comes to the front.
reverse_whole :
    strbuf_reverse_substring abc_buffer 0 3
    ≡ some (record abc_buffer { buf = 0 ∷ b'c' ∷ b'b' ∷ b'a' ∷ 7 ∷ 7 ∷ [] })
unfolding strbuf_reverse_substring
reverse_whole = refl

-- "b" three times, where "abbbc" is meant: there are four, and the end of the text is lost.
repeat_middle :
    strbuf_repeat_substring 7 abc_buffer 1 2 3
    ≡ some (record abc_buffer { buf = b'a' ∷ b'b' ∷ b'b' ∷ b'b' ∷ b'b' ∷ 7 ∷ []; len = 5 })
unfolding strbuf_repeat_substring
repeat_middle = refl
