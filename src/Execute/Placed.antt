-- ===== src/Execute/Placed.antt =====
-- src/execute.c: a replacement in a line, and update_positions behind it. execute_rule asserts that
-- the outermost match ends where the text ends.
use regex_markup.Common.{
  ℕ, ◌+◌, ◌-◌, ◌≤◌, ◌≡◌, sym, subst, List, arith, length, take, drop, length-append, length-take,
  length-drop, ◌++◌,
}
use regex_markup.StrBuf.Splice.{from_pos, to_pos}
use regex_markup.Positions.{update_positions}
use regex_markup.Positions.Placed.{
  Fits, difference, FramesWithin, EndsWithText, StylesWithin, update_positions-Within,
}
use regex_markup.Execute.{State, replace_text, replace_and_update}

-- Every match and style of a state lies in the text, every submatch lies in it or is unused, and the
-- outermost match ends where the text ends.
abbrev pub Placed : State → Type 0
Placed st =
    FramesWithin (length st.text) st.frames
    × EndsWithText (length st.text) st.frames
    × StylesWithin (length st.text) st.styles

pub length-replace_text :
    (t ins : List ℕ) (lo hi : ℕ)
    → lo ≤ hi
    → hi ≤ length t
    → length (replace_text t lo hi ins) ≡ length t + length ins - (hi - lo)
unfolding replace_text
length-replace_text t ins lo hi h k =
    let lo' = from_pos t lo hi in
    let hi' = to_pos t lo hi in
    omega (
      arith,
      length-append (take lo' t) (ins ++ drop hi' t),
      length-append ins (drop hi' t),
      length-take lo' t,
      length-drop hi' t,
    )

-- A replacement of the characters from `lo` up to `hi`, followed by update_positions from any
-- start up to `lo`, leaves every match of the state and its parents and every style within the
-- text, every submatch within it or unused, and the outermost match ending with it, where they did
-- before, and the old line and the replacement have less than 2 ^ 31 characters together.
pub replace_and_update-Placed :
    (st : State) (lo hi from : ℕ) (repl : List ℕ)
    → Placed st
    → Fits (length st.text) (length repl) lo hi
    → from ≤ lo
    → Placed (replace_and_update st lo hi from (difference (length repl) lo hi) repl)
unfolding replace_and_update
replace_and_update-Placed st lo hi from repl (fs, es, ss) fits before =
    let moved =
      update_positions-Within (length st.text) (length repl) lo hi from fits before st.frames
        st.styles fs es ss in
    let new = update_positions from (difference (length repl) lo hi) st.frames st.styles in
    subst
      (λ len.
        FramesWithin len new.frames × EndsWithText len new.frames × StylesWithin len new.styles)
      (sym (length-replace_text st.text repl lo hi fits.in_order fits.inside)) moved
