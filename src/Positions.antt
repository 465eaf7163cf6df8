-- ===== src/Positions.antt =====
-- src/execute.c, update_positions: what a change of the text does to the offsets that point into
-- it. Offsets and differences are 32-bit patterns, `int32_t` where the code casts.
pub mod Placed
pub mod Text
pub mod Parts
use regex_markup.Common.{
  ℕ, ◌≡◌, List, [], ◌∷◌, Bool, true, false, ◌&&◌, ◌||◌, ltb, leb, ◌==◌, if◌then◌else◌, add32, slt32,
  map,
}
use regex_markup.Regex.{SubmatchSpec, spec}
use regex_markup.Match.{Frame, whole_match}
use regex_markup.Ranges.{StyleRange}

-- `MAX((int32_t) pos + diff, so)`, a signed comparison.
unfoldable pub shifted : ℕ → ℕ → ℕ → ℕ
shifted pos diff so = let moved = add32 pos diff in if slt32 so moved then moved else so

-- The body of the loop over the styles; `line_end` is the outermost match's end.
unfoldable pub update_range : (line_end so diff : ℕ) → StyleRange → StyleRange
unfolding shifted
update_range line_end so diff rng =
    if rng.so == rng.eo && rng.so == so
    then record rng { eo = shifted rng.eo diff so }
    else record rng {
      eo =
          (if ltb so rng.eo || (leb so rng.eo && so == line_end)
            then shifted rng.eo diff so
            else rng.eo);
      so = (if ltb so rng.so then shifted rng.so diff so else rng.so);
    }

-- The body of the loop over the submatches; `first` is `c == 0 && ms->parent == NULL`.
unfoldable pub update_spec : (first : Bool) (so diff : ℕ) → SubmatchSpec → SubmatchSpec
unfolding shifted
update_spec first so diff m =
    if m.so == m.eo && m.so == so then record m { eo = shifted m.eo diff so } else record m {
      eo = (if ltb so m.eo || (leb so m.eo && first) then shifted m.eo diff so else m.eo);
      so = (if ltb so m.so then shifted m.so diff so else m.so);
    }

unfoldable pub update_frame : (root : Bool) (so diff : ℕ) → Frame → Frame
unfolding update_spec
update_frame root so diff [] = []
update_frame root so diff (m ∷ ms) = update_spec root so diff m ∷ map (update_spec false so diff) ms

-- A match state and its parents, the outermost last, and the styles.
pub record Marks : Type 0 where
  pub frames : List Frame
  pub styles : List StyleRange

-- From a state out to its parents; at the outermost the styles are updated first.
unfoldable pub update_positions : (so diff : ℕ) → List Frame → List StyleRange → Marks
unfolding update_range update_frame
update_positions so diff [] styles = record { frames = []; styles = styles }
update_positions so diff (root ∷ []) styles = record {
  frames = update_frame true so diff root ∷ [];
  styles = map (update_range (whole_match root).eo so diff) styles;
}
update_positions so diff (frame ∷ parent ∷ others) styles =
    let outer = update_positions so diff (parent ∷ others) styles in
    record outer { frames = update_frame false so diff frame ∷ outer.frames }
