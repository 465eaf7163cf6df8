-- ===== src/Match.antt =====
-- src/match.c: matches of a line and of its parts, and the expansion of replacement strings.
pub mod Found
pub mod Tries
use regex_markup.Common.{
  ℕ, ◌+◌, ◌-◌, ◌*◌, List, [], ◌∷◌, ◌++◌, Option, none, some, Bool, not, ◌&&◌, ◌||◌, ltb, leb, ◌==◌,
  if◌then◌else◌, length, get_or, add32, sub32, wrap32, minus_one,
}
use regex_markup.Regex.{RegexLib, SubmatchSpec, spec, xregexec_substring}
use regex_markup.StrBuf.{substr_bytes}

pub record RegexFlags : Type 0 where
  pub global : Bool
  pub ignore_case : Bool

pub data Match (R : Type 0) : Type 0 where
  regex : R → RegexFlags → Match R
  subex : ℕ → Match R

-- The submatches of a MatchState, the whole match first; `subc` is their number.
abbrev pub Frame : Type 0
Frame = List SubmatchSpec

abbrev pub whole_match : Frame → SubmatchSpec
whole_match subv = get_or subv 0 (spec 0 0)

-- NULL, a new state with the value that `*start` has then, or `die`.
pub data Tried : Type 0 where
  no_match : Tried
  matched : Frame → ℕ → Tried
  dies : Tried

-- subv[0] is set by new_match_state, the others one by one.
unfoldable pub new_match_state : SubmatchSpec → List SubmatchSpec → Frame
new_match_state m others = m ∷ others

abbrev pub tail_of : List SubmatchSpec → List SubmatchSpec
tail_of [] = []
tail_of (m ∷ ms) = ms

module _ (lib : RegexLib) where
  open lib use {Regex}

  unfoldable pub try_regex : Regex → RegexFlags → List ℕ → Frame → ℕ → ℕ → Tried
  unfolding xregexec_substring new_match_state
  try_regex re flags text subv start call =
      if ltb 0 call && not flags.global
      then no_match
      else elim (xregexec_substring lib re text start (whole_match subv).eo) [
        | none ↦ no_match
        | some found ↦
            let m = whole_match found in
            matched (new_match_state m (tail_of found)) (add32 start (sub32 m.eo m.so))
      ]

  unfoldable pub try_match : Match Regex → List ℕ → Frame → ℕ → ℕ → Tried
  unfolding try_regex new_match_state
  try_match (regex re flags) text subv start call = try_regex re flags text subv start call
  try_match (subex index) text subv start call =
      let s = get_or subv index (spec 0 0) in
      if ltb 0 call
      then no_match
      else if leb (length subv) index
      then dies
      else if s.so == minus_one || s.eo == minus_one
      then no_match
      else matched (new_match_state s []) s.so

unfoldable pub is_digit : ℕ → Bool
is_digit c = leb b'0' c && leb c b'9'

-- `for (c = 0; c < len; c++)`: the number, or `none` at a character that is no digit.
unfoldable pub variable_index : ℕ → List ℕ → Option ℕ
unfolding is_digit
variable_index idx [] = some idx
variable_index idx (c ∷ name) =
    let rest = variable_index (wrap32 (idx * 10 + (c - b'0'))) name in
    if is_digit c then rest else none

-- strbuf_append_substring on the buffer that is being built.
unfoldable pub append_part : List ℕ → List ℕ → ℕ → ℕ → List ℕ
unfolding substr_bytes
append_part out text so eo = out ++ substr_bytes (some text) so eo

module _ (text : List ℕ) (outer : Frame) (subv : Frame) where
  unfoldable pub expand_numbered : List ℕ → List ℕ → Option (List ℕ)
  unfolding variable_index append_part
  expand_numbered out name = elim (variable_index 0 name) [
    | none ↦ none
    | some idx ↦
        let s = get_or subv idx (spec 0 0) in
        some (if leb (length subv) idx then out else append_part out text s.so s.eo)
  ]

  -- `none` where the function returns false.
  unfoldable pub expand_variable : List ℕ → List ℕ → Option (List ℕ)
  unfolding expand_numbered append_part
  expand_variable out [] = expand_numbered out []
  expand_variable out (c ∷ []) =
      if c == b'`'
      then some (append_part out text (whole_match outer).so (whole_match subv).so)
      else if c == b'&'
      then some (append_part out text (whole_match subv).so (whole_match subv).eo)
      else if c == 39
      then some (append_part out text (whole_match subv).eo (whole_match outer).eo)
      else expand_numbered out (c ∷ [])
  expand_variable out (c ∷ d ∷ name) = expand_numbered out (c ∷ d ∷ name)
