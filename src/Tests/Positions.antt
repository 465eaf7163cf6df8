-- ===== src/Tests/Positions.antt =====
-- The moves of src/execute.c in "ab-cd", where "-" becomes "xyz".
use regex_markup.Common.{ℕ, ◌-◌, ◌+◌, ◌≡◌, refl, List, [], ◌∷◌, inl, inr, arith, minus_one, map}
use regex_markup.Regex.{spec}
use regex_markup.Match.{Frame}
use regex_markup.Ranges.{StyleRange}
use regex_markup.StrBuf.Splice.{splice}
use regex_markup.Positions.{
  update_positions, update_range, update_spec, update_frame, shifted, Marks,
}
use regex_markup.Positions.Placed.{
  Fits, difference, FramesWithin, EndsWithText, StylesWithin, update_positions-Within,
}
use regex_markup.Positions.Parts.{styled, styled_after, update_positions-parts}
use regex_markup.Style.{Style}

abbrev style : Style
style = record { name = []; pre_string = []; post_string = []; refs = 1 }

abbrev range : ℕ → ℕ → StyleRange
range so eo = record { so = so; eo = eo; style = style }

abbrev line : List ℕ
line = b'a' ∷ b'b' ∷ b'-' ∷ b'c' ∷ b'd' ∷ []

abbrev xyz : List ℕ
xyz = b'x' ∷ b'y' ∷ b'z' ∷ []

abbrev frames : List Frame
frames = (spec 2 4 ∷ spec 3 4 ∷ spec minus_one minus_one ∷ []) ∷ (spec 0 5 ∷ []) ∷ []

abbrev styles : List StyleRange
styles = range 0 2 ∷ range 2 3 ∷ range 3 5 ∷ []

dash-Fits : Fits 5 3 2 3
dash-Fits = record { in_order = omega arith; inside = omega arith; small = omega arith }

abbrev moved : Marks
moved = update_positions 2 (difference 3 2 3) frames styles

moved_once : moved ≡ record {
  frames = (spec 2 6 ∷ spec 5 6 ∷ spec 2 2 ∷ []) ∷ (spec 0 7 ∷ []) ∷ [];
  styles = range 0 2 ∷ range 2 5 ∷ range 5 7 ∷ [];
}
unfolding update_positions update_range update_spec update_frame shifted
moved_once = refl

update_positions-Within_example :
    FramesWithin (5 + 3 - (3 - 2)) moved.frames
    × EndsWithText (5 + 3 - (3 - 2)) moved.frames
    × StylesWithin (5 + 3 - (3 - 2)) moved.styles
update_positions-Within_example =
    update_positions-Within 5 3 2 3 2 dash-Fits (omega arith) frames styles
      (
        (omega arith, omega arith, (inr (omega arith, omega arith), (inl (refl, refl), tt))),
        ((omega arith, omega arith, tt), tt),
      )
      refl
      ((omega arith, omega arith), ((omega arith, omega arith), ((omega arith, omega arith), tt)))

-- "b-c" is around the replaced part.
abbrev around : List StyleRange
around = range 0 2 ∷ range 1 4 ∷ range 2 3 ∷ range 3 5 ∷ []

around_text :
    map (styled_after line 2 3 xyz) around
    ≡ (b'a' ∷ b'b' ∷ []) ∷ (b'b' ∷ b'x' ∷ b'y' ∷ b'z' ∷ b'c' ∷ []) ∷ xyz ∷ (b'c' ∷ b'd' ∷ []) ∷ []
around_text = refl

update_positions-parts_example :
    map (styled (splice line 2 3 xyz)) (update_positions 2 (difference 3 2 3) frames around).styles
    ≡ map (styled_after line 2 3 xyz) around
update_positions-parts_example =
    update_positions-parts line xyz 2 3 dash-Fits frames around refl
      (
        (omega arith, omega arith),
        (
          (omega arith, omega arith),
          ((omega arith, omega arith), ((omega arith, omega arith), tt)),
        ),
      )
      (
        inl (omega arith, inr (omega arith)),
        (
          inr (inr (omega arith, omega arith)),
          (inr (inr (omega arith, omega arith)), (inr (inl (omega arith)), tt)),
        ),
      )
