-- ===== src/Parser/Include.antt =====
-- src/parser.y, parse_script and include_script: files that include files, on the depth of these. A
-- file that includes itself has no end. fopen, dir_name, the variable HOME and the directories that
-- the build sets are parameters; without HOME, cat_files is given NULL, and the program ends.
use regex_markup.Common.{
  ℕ, zero, suc, List, [], ◌∷◌, Option, none, some, Bool, false, ◌==◌, if◌then◌else◌, length,
}
use regex_markup.Match.{RegexFlags}
use regex_markup.StringUtils.{cat_files}
use regex_markup.Rule.{Rule, new_multi_rule}
use regex_markup.Execute.{Result, ok, died, out_of_fuel, ◌>>=◌}
use regex_markup.Remark.{RemarkScript}
use regex_markup.Lexer.{Token, lex}
use regex_markup.Script.{Script, new_script}
use regex_markup.Parser.{parse_input}

-- What fopen gives: the text of the file, ENOENT, or another error.
pub data Opened : Type 0 where
  opened : List ℕ → Opened
  missing failed : Opened

abbrev is_absolute : List ℕ → Bool
is_absolute [] = false
is_absolute (c ∷ filename) = c == b'/'

module _ {R : Type 0} (compile : List ℕ → RegexFlags → Option R) (stale : List Token → ℕ) where
  unfoldable pub read_tokens : List ℕ → Result (List Token)
  unfolding lex
  read_tokens text = elim (lex text) [ none ↦ out_of_fuel | some (tokens, echo) ↦ ok tokens ]

  -- The text of a file, with a round for each token and one more.
  unfoldable pub parse_text :
      (include : List ℕ → Script R → Result (Rule R × Script R))
      → List ℕ
      → Script R
      → Result (Rule R × Script R)
  unfolding read_tokens parse_input new_multi_rule
  parse_text include text script = read_tokens text >>= λ tokens.
      parse_input compile stale include (suc (length tokens)) tokens script >>= λ (rules, script').
      ok (new_multi_rule rules, script')

  module _ (open_file : List ℕ → Opened) (dir_name : List ℕ → List ℕ) (home : Option (List ℕ))
      (pkguserdir pkgdatadir : List ℕ) where
    unfoldable pub try_open : List ℕ → (otherwise : Result (List ℕ)) → Result (List ℕ)
    try_open name otherwise = elim (open_file name) [
      | opened text ↦ ok text
      | missing ↦ otherwise
      | failed ↦ died
    ]

    -- The places where a file is looked for; `directory` is that of the file that includes it.
    unfoldable pub find_file : (directory : Option (List ℕ)) → (filename : List ℕ) → Result (List ℕ)
    unfolding try_open cat_files
    find_file directory filename =
        let in_data : Result (List ℕ) = try_open (cat_files pkgdatadir filename) died in
        let in_home : Result (List ℕ) = elim home [
          | none ↦ died
          | some dir ↦ try_open (cat_files (cat_files dir pkguserdir) filename) in_data
        ] in
        let beside : List ℕ = elim directory [
          | none ↦ filename
          | some dir ↦ cat_files dir filename
        ] in
        if is_absolute filename then try_open filename died else try_open beside in_home

    unfoldable pub include_script :
        (depth : ℕ)
        → (directory : Option (List ℕ)) → (filename : List ℕ) → Script R
        → Result (Rule R × Script R)
    unfolding find_file parse_text
    include_script zero directory filename script = out_of_fuel
    include_script (suc depth) directory filename script = find_file directory filename >>= λ text.
        parse_text (include_script depth (some (dir_name filename))) text script

    unfoldable pub parse_script : ℕ → (filename : Option (List ℕ)) → Result (RemarkScript R)
    unfolding include_script new_script
    parse_script depth none = ok (record { prepend_rule = none; append_rule = none; rule = none })
    parse_script depth (some filename) =
        include_script depth none filename new_script >>= λ (rule, script). ok (record {
          prepend_rule = script.prepend_rule;
          append_rule = script.append_rule;
          rule = some rule;
        })
