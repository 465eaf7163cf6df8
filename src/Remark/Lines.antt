-- ===== src/Remark/Lines.antt =====
-- src/remark.c and execute_script of src/execute.c: a line from the input to the output.
use regex_markup.Common.{
  ℕ, suc, ◌+◌, ◌-◌, ◌<◌, ◌≤◌, ◌≡◌, refl, ap, ◌∙◌, List, [], ◌∷◌, ◌++◌, map, Option, none, some,
  Bool, true, false, slt32, ◌==◌, length, length-append, get_or, take-append, wrap32, i32, u32,
  arith,
}
use regex_markup.Cacheline.{newline, joined}
use regex_markup.Regex.{RegexLib, spec}
use regex_markup.Rule.{Rule, ActionType, action_skip}
use regex_markup.Ranges.Covers.{covers, on_between}
use regex_markup.Ranges.Insert.{InOrder}
use regex_markup.StringUtils.{chomp}
use regex_markup.Wrap.Line.{WrapOptions, wrap_line}
use regex_markup.Wrap.Line.Short.{wrap_line-short}
use regex_markup.Execute.{
  State, MatchBuffer, Result, ok, ◌>>=◌, from_option, execute_any_rule, execute_rule,
}
use regex_markup.Execute.Styling.{OnlyStyles, styling, execute_any_rule-Styled}
use regex_markup.Remark.{
  Settings, RemarkScript, RemarkInput, set_buffer, wrap_options, finish_script, main_rule,
  execute_script, printed, try_line, try_lines,
}

chomp-newline : (t : List ℕ) → suc (length t) < i32 → chomp (t ++ newline) ≡ t
unfolding chomp
chomp-newline t small =
    let size : length (t ++ newline) ≡ length t + 1 = length-append t newline in
    let whole : wrap32 (length (t ++ newline)) ≡ suc (length t) = omega (arith, size, small) in
    let some_text : slt32 0 (suc (length t)) ≡ true = ground (arith, small) in
    let place : suc (length t) - 1 ≡ length t = omega arith in
    rw (whole, some_text, place, at_end t) (take-append (length t) t newline refl)
  where
    at_end : (t : List ℕ) → get_or (t ++ newline) (length t) 0 ≡ b'\n'
    at_end [] = refl
    at_end (c ∷ t) = at_end t

-- A line that fits into the width, and has less than 2 ^ 31 characters with its newline.
abbrev pub Short : Settings → List ℕ → Type 0
Short settings t = (length t ≤ settings.wrap.wrap_width) × (suc (length t) < i32)

abbrev pub AllShort : Settings → List (List ℕ) → Type 0
AllShort settings [] = Unit {0}
AllShort settings (t ∷ ts) = Short settings t × AllShort settings ts

abbrev pub no_rules : {R : Type 0} → RemarkScript R
no_rules = record { prepend_rule = none; append_rule = none; rule = none }

abbrev with_line : Settings → RemarkInput → List ℕ → RemarkInput
with_line settings input t = record {
  mb = set_buffer input.mb t;
  append_mb = set_buffer input.append_mb settings.append_string;
  prepend_mb = set_buffer input.prepend_mb settings.prepend_string;
}

module _ (opts : WrapOptions) (f : ℕ) (wide : opts.wrap_width < u32) where
  empty_line : wrap_line (suc (suc f)) opts [] [] 0 ≡ some newline
  unfolding wrap_line
  empty_line = refl

  wrap_line-fits :
      (t : List ℕ)
      → length t ≤ opts.wrap_width
      → length t < i32
      → wrap_line (suc (suc f)) opts [] t (wrap32 (length t)) ≡ some (t ++ newline)
  wrap_line-fits [] fits short = empty_line
  wrap_line-fits (c ∷ t) fits short =
      let size : wrap32 (length (c ∷ t)) ≡ length (c ∷ t) = omega (arith, short) in
      ap (wrap_line (suc (suc f)) opts [] (c ∷ t)) size
      ∙ wrap_line-short opts (c ∷ t) fits wide short (omega arith) f

module _ (lib : RegexLib) (f : ℕ) (settings : Settings)
    (wide : settings.wrap.wrap_width < u32) where
  abbrev NoStyles : RemarkInput → Type 0
  NoStyles input = input.mb.styles ≡ []

  abbrev finished : (mb : MatchBuffer) → RemarkInput → List ℕ → RemarkInput
  finished mb input text = record input { mb = record mb { text = text; styles = [] } }

  finish_plain :
      (mb : MatchBuffer) (input : RemarkInput) (text : List ℕ)
      → wrap_line
          (suc (suc f))
          (wrap_options settings input.append_mb input.prepend_mb)
          mb.styles
          mb.text
          mb.bufferlen
        ≡ some text
      → finish_script lib (suc (suc f)) settings no_rules mb input
        ≡ ok (true, finished mb input text)
  unfolding finish_script
  finish_plain mb input text e =
      ap (λ (o : Option (List ℕ)). from_option o >>= λ text. ok (true, finished mb input text)) e

  try_plain :
      (input : RemarkInput) (t : List ℕ) (r : RemarkInput)
      → finish_script lib
          (suc (suc f))
          settings
          no_rules
          (with_line settings input t).mb
          (with_line settings input t)
        ≡ ok (true, r)
      → try_line lib (suc (suc f)) settings no_rules input t ≡ ok (r.mb.text, r)
  unfolding try_line
  try_plain input t r e =
      ap (λ (q : Result (Bool × RemarkInput)). q >>= λ done. ok (printed done)) e

  wrapped_in :
      (t out : List ℕ) (input : RemarkInput) (opts : WrapOptions)
      → wrap_line (suc (suc f)) opts input.mb.styles t (wrap32 (length t)) ≡ some out
      → wrap_line
          (suc (suc f))
          opts
          (set_buffer input.mb t).styles
          (set_buffer input.mb t).text
          (set_buffer input.mb t).bufferlen
        ≡ some out
  unfolding set_buffer
  wrapped_in t out input opts e = e

  try_line-Short :
      (input : RemarkInput) (t : List ℕ)
      → NoStyles input
      → Short settings t
      → (input' : RemarkInput) × (try_line lib (suc (suc f)) settings no_rules input t
          ≡ ok (t ++ newline, input'))
        × NoStyles input'
  try_line-Short input t plain (fits, short) =
      let line : RemarkInput = with_line settings input t in
      let opts : WrapOptions = wrap_options settings line.append_mb line.prepend_mb in
      let wrapped : wrap_line (suc (suc f)) opts input.mb.styles t (wrap32 (length t))
          ≡ some (t ++ newline) =
        ap (λ styles. wrap_line (suc (suc f)) opts styles t (wrap32 (length t))) plain
        ∙ wrap_line-fits opts f wide t fits (omega (arith, short)) in
      let r : RemarkInput = finished line.mb line (t ++ newline) in
      (
        r,
        try_plain input t r (
            finish_plain line.mb line (t ++ newline)
              (wrapped_in t (t ++ newline) input opts wrapped)),
        refl,
      )

  -- The lines of an input, each with its newline, are written as they are by a script without rules,
  -- where none is longer than the width, a uint32_t, or has 2 ^ 31 characters or more with its
  -- newline, whatever the wrapper and the strings around pieces, and no style is left over in the
  -- buffer; two rounds for each line are enough.
  pub try_lines-copy :
      (input : RemarkInput) (ts : List (List ℕ))
      → NoStyles input
      → AllShort settings ts
      → (input' : RemarkInput) × (try_lines lib
            (suc (suc f))
            settings
            no_rules
            input
            (map (◌++ newline) ts)
          ≡ ok (joined (map (◌++ newline) ts), input'))
  unfolding try_lines
  try_lines-copy input [] plain all = (input, refl)
  try_lines-copy input (t ∷ ts) plain (short, all) =
      let (input', e, plain') = try_line-Short input t plain short in
      let (input'', es) = try_lines-copy input' ts plain' all in
      (input'', rw (chomp-newline t short.1, e, es) refl)

module _ (lib : RegexLib) (fuel : ℕ) (settings : Settings) where
  open lib use {Regex}

  execute_rule-skip :
      (rule : Rule Regex) (mb : MatchBuffer) (st' : State)
      → (length mb.text == mb.bufferlen) ≡ true
      → execute_any_rule lib fuel rule
          (record { text = mb.text; styles = mb.styles; frames = (spec 0 mb.bufferlen ∷ []) ∷ [] })
        ≡ ok (action_skip, st')
      → execute_rule lib fuel rule mb
        ≡ ok (false, record { text = st'.text; bufferlen = 0; styles = st'.styles })
  unfolding execute_rule
  execute_rule-skip rule mb st' whole e = rw (whole, e) refl

  main_some :
      (rule : Rule Regex) (mb : MatchBuffer)
      → main_rule lib fuel settings (some rule) mb ≡ execute_rule lib fuel rule mb
  unfolding main_rule
  main_some rule mb = refl

  skipped :
      (script : RemarkScript Regex) (input : RemarkInput) (t : List ℕ) (mb : MatchBuffer)
      → main_rule lib fuel settings script.rule (with_line settings input t).mb ≡ ok (false, mb)
      → try_line lib fuel settings script input t
        ≡ ok ([], record (with_line settings input t) { mb = mb })
  unfolding try_line execute_script
  skipped script input t mb e = rw e refl

  -- A line of less than 2 ^ 31 characters that the script's rule, of styles and actions, skips prints
  -- nothing, whatever the fuel; the styles that are written before the skip stay in the list of
  -- ranges, over the whole line, for the lines behind it. The list was in order.
  pub try_line-skip :
      (script : RemarkScript Regex) (rule : Rule Regex) (input : RemarkInput) (t : List ℕ)
      → script.rule ≡ some rule
      → OnlyStyles rule
      → (styling rule).0 ≡ action_skip
      → InOrder input.mb.styles
      → length t < i32
      → (input' : RemarkInput) × (try_line lib fuel settings script input t ≡ ok ([], input'))
        × ((i : ℕ)
            → covers i input'.mb.styles
              ≡ covers i input.mb.styles ++ on_between i 0 (length t) (styling rule).1)
  unfolding set_buffer
  try_line-skip script rule input t is_rule only skips ordered small =
      let mb : MatchBuffer = set_buffer input.mb t in
      let start : State = record {
        text = t;
        styles = input.mb.styles;
        frames = (spec 0 (wrap32 (length t)) ∷ []) ∷ [];
      } in
      let (st', e, styled) =
        execute_any_rule-Styled lib fuel rule start only (ordered, omega arith) in
      let size : wrap32 (length t) ≡ length t = omega (arith, small) in
      let whole : (length t == wrap32 (length t)) ≡ true = ground (arith, size) in
      let left : MatchBuffer = record { text = st'.text; bufferlen = 0; styles = st'.styles } in
      (
        record (with_line settings input t) { mb = left },
        skipped script input t left (
            ap (λ o. main_rule lib fuel settings o mb) is_rule
            ∙ main_some rule mb
            ∙ execute_rule-skip rule mb st' whole
                (e ∙ ap (λ (action : ActionType). ok (action, st')) skips)),
        λ i.
            styled.on i
            ∙ ap (λ n. covers i input.mb.styles ++ on_between i 0 n (styling rule).1) size,
      )
