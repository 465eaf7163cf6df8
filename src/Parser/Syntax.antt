-- ===== src/Parser/Syntax.antt =====
-- src/parser.y: the trees of its grammar, and their lexemes.
use regex_markup.Common.{ℕ, suc, ◌+◌, ◌≡◌, List, [], ◌∷◌, some, length}
use regex_markup.Match.{RegexFlags}
use regex_markup.IntUtil.{parse_int}
use regex_markup.Lexer.Lexemes.{
  Lexeme, open_lexeme, close_lexeme, comma_lexeme, macro_lexeme, style_lexeme, skip_lexeme,
  break_lexeme, prepend_lexeme, append_lexeme, include_lexeme, set_lexeme, string_lexeme,
  match_lexeme, subst_lexeme, number_lexeme,
}

pub data StyleStmt : Type 0 where
  like_stmt pre_stmt post_stmt : List ℕ → StyleStmt

-- An expression, or the number of a subexpression as it is written.
pub data Item : Type 0 where
  regex_item : List ℕ → RegexFlags → Item
  number_item : (digits : List ℕ) → ℕ → Item

mutual
  pub data Stmt : Type 0 where
    include_stmt name_stmt set_stmt : List ℕ → Stmt
    subst_stmt : (match repl : List ℕ) → RegexFlags → Stmt
    skip_stmt break_stmt : Stmt
    match_stmt : Item → List Item → Body → Stmt

  pub data Stmts : Type 0 where
    end_stmts : Stmts
    then_stmt : Stmt → Stmts → Stmts

  -- Statements in braces, or one without.
  pub data Body : Type 0 where
    block : Stmts → Body
    single : Stmt → Body

pub data StyleBody : Type 0 where
  style_block : List StyleStmt → StyleBody
  style_single : StyleStmt → StyleBody

pub data Decl : Type 0 where
  style_decl : (name : List ℕ) → StyleBody → Decl
  macro_decl : (name : List ℕ) → Body → Decl
  prepend_decl append_decl : Body → Decl
  stmt_decl : Stmt → Decl

-- The lexemes of a tree, in front of others.
abbrev pub style_stmt_text : StyleStmt → List Lexeme → List Lexeme
style_stmt_text (like_stmt name) ls = string_lexeme name ∷ ls
style_stmt_text (pre_stmt str) ls = prepend_lexeme ∷ string_lexeme str ∷ ls
style_stmt_text (post_stmt str) ls = append_lexeme ∷ string_lexeme str ∷ ls

abbrev pub style_stmts_text : List StyleStmt → List Lexeme → List Lexeme
style_stmts_text [] ls = close_lexeme ∷ ls
style_stmts_text (st ∷ sts) ls = style_stmt_text st (style_stmts_text sts ls)

abbrev pub style_body_text : StyleBody → List Lexeme → List Lexeme
style_body_text (style_block sts) ls = open_lexeme ∷ style_stmts_text sts ls
style_body_text (style_single st) ls = style_stmt_text st ls

abbrev pub item_text : Item → Lexeme
item_text (regex_item re flags) = match_lexeme re flags
item_text (number_item digits n) = number_lexeme digits

abbrev pub more_items_text : List Item → List Lexeme → List Lexeme
more_items_text [] ls = ls
more_items_text (i ∷ is') ls = comma_lexeme ∷ item_text i ∷ more_items_text is' ls

abbrev mutual
  pub stmt_text : Stmt → List Lexeme → List Lexeme
  stmt_text (include_stmt name) ls = include_lexeme ∷ string_lexeme name ∷ ls
  stmt_text (name_stmt name) ls = string_lexeme name ∷ ls
  stmt_text (set_stmt str) ls = set_lexeme ∷ string_lexeme str ∷ ls
  stmt_text (subst_stmt match repl flags) ls = subst_lexeme match repl flags ∷ ls
  stmt_text skip_stmt ls = skip_lexeme ∷ ls
  stmt_text break_stmt ls = break_lexeme ∷ ls
  stmt_text (match_stmt i is' body) ls = item_text i ∷ more_items_text is' (body_text body ls)

  pub stmts_text : Stmts → List Lexeme → List Lexeme
  stmts_text end_stmts ls = close_lexeme ∷ ls
  stmts_text (then_stmt st sts) ls = stmt_text st (stmts_text sts ls)

  pub body_text : Body → List Lexeme → List Lexeme
  body_text (block sts) ls = open_lexeme ∷ stmts_text sts ls
  body_text (single st) ls = stmt_text st ls

abbrev pub decl_text : Decl → List Lexeme → List Lexeme
decl_text (style_decl name body) ls = style_lexeme ∷ string_lexeme name ∷ style_body_text body ls
decl_text (macro_decl name body) ls = macro_lexeme ∷ string_lexeme name ∷ body_text body ls
decl_text (prepend_decl body) ls = prepend_lexeme ∷ body_text body ls
decl_text (append_decl body) ls = append_lexeme ∷ body_text body ls
decl_text (stmt_decl st) ls = stmt_text st ls

abbrev pub decls_text : List Decl → List Lexeme
decls_text [] = []
decls_text (d ∷ ds) = decl_text d (decls_text ds)

-- Rounds that are enough to parse the tree.
abbrev mutual
  pub stmt_size : Stmt → ℕ
  stmt_size (match_stmt i is' body) = suc (body_size body)
  stmt_size _ = 1

  pub stmts_size : Stmts → ℕ
  stmts_size end_stmts = 1
  stmts_size (then_stmt st sts) = stmt_size st + stmts_size sts

  pub body_size : Body → ℕ
  body_size (block sts) = stmts_size sts
  body_size (single st) = stmt_size st

-- The numbers are those that their digits stand for, in 32 bits.
abbrev pub Fits : Item → Type 0
Fits (regex_item re flags) = Unit {0}
Fits (number_item digits n) = parse_int 32 digits ≡ some n

abbrev pub AllFit : List Item → Type 0
AllFit [] = Unit {0}
AllFit (i ∷ is') = Fits i × AllFit is'

abbrev mutual
  pub StmtFits : Stmt → Type 0
  StmtFits (match_stmt i is' body) = Fits i × AllFit is' × BodyFits body
  StmtFits _ = Unit {0}

  pub StmtsFit : Stmts → Type 0
  StmtsFit end_stmts = Unit {0}
  StmtsFit (then_stmt st sts) = StmtFits st × StmtsFit sts

  pub BodyFits : Body → Type 0
  BodyFits (block sts) = StmtsFit sts
  BodyFits (single st) = StmtFits st

abbrev pub DeclFits : Decl → Type 0
DeclFits (style_decl name body) = Unit {0}
DeclFits (macro_decl name body) = BodyFits body
DeclFits (prepend_decl body) = BodyFits body
DeclFits (append_decl body) = BodyFits body
DeclFits (stmt_decl st) = StmtFits st

abbrev pub DeclsFit : List Decl → Type 0
DeclsFit [] = Unit {0}
DeclsFit (d ∷ ds) = DeclFits d × DeclsFit ds

abbrev pub style_size : StyleBody → ℕ
style_size (style_block sts) = suc (length sts)
style_size (style_single st) = 1

abbrev pub decl_size : Decl → ℕ
decl_size (style_decl name body) = style_size body
decl_size (macro_decl name body) = body_size body
decl_size (prepend_decl body) = body_size body
decl_size (append_decl body) = body_size body
decl_size (stmt_decl st) = stmt_size st

abbrev pub decls_size : List Decl → ℕ
decls_size [] = 1
decls_size (d ∷ ds) = decl_size d + decls_size ds
