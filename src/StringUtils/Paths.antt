-- ===== src/StringUtils/Paths.antt =====
-- src/common/string-utils.c: cat_files and xdirname.
use regex_markup.Common.{ℕ, ◌≢◌, List, [], ◌∷◌}

abbrev pub NoSlash : List ℕ → Type 0
NoSlash [] = Unit {0}
NoSlash (c ∷ str) = (c ≢ b'/') × NoSlash str
