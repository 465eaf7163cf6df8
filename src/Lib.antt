-- ===== src/Lib.antt =====
-- Verification of regex-markup: the program `remark` reads lines, runs the rules of a script on
-- each, which replace text and mark parts with styles, and prints the line with the strings of its
-- styles written into it, broken into pieces of a width.
--
-- The parts, and how they meet. A script is read into tokens (Lexer), which are parsed into a tree
-- of rules (Parser, Script, Rule). execute_rule runs it on a line: a match rule finds parts of the
-- line with regular expressions (Regex, Match) and runs its block on each; a style rule puts a
-- range into the line's list of ranges (Ranges); a set or substitution rule expands a replacement
-- string (Expand), puts it into the line's buffer (StrBuf), and moves every offset that the matches
-- and the ranges keep (Positions). wrap_line then writes the strings of the styles (Style) into the
-- pieces of the line (Wrap).
--
--   Common      names, lists, 32-bit arithmetic that the files share
--   Memory      bytes in an array, with a fault outside it
--   StrBuf      src/common/strbuf.c: the editing functions on an array of bytes with its length and
--               capacity. `none` is an access outside the array. `Holds` relates a buffer to a text
--   StringUtils src/common/string-utils.c, on lists; substring reports a read outside the string
--   Style       src/style.c: styles; the text of a buffer is a list from here on
--   Ranges      src/execute.c, insert_style and its helpers: a node is a list zipped at a place
--   LList       src/common/llist.c: nodes at addresses (LList.Heap), the list's record outside them, and
--               commands with a fault at a wrong access. LList.Nodes: the functions on nodes, the
--               iterator and copies. LList.Linked relates a list in the heap to a sequence of cells
--   HMap        src/common/hmap.c: buckets of entries; the two functions of a table are parameters
--   IntUtil     src/common/intutil.c: the eight parse functions, by the width of their type
--   Wrap        src/wrap.c: identify_wrapper and apply_styles; Wrap.Line: wrap_line
--   Regex       src/common/regex-utils.c: regexec is a parameter, a function from an expression and
--               a string to the offsets of a match
--   Match       src/match.c: try_match, expand_variable; Expand: expand_substitution. Match.Found and
--               Match.Tries: where matches lie, given where regexec reports them
--   Positions   src/execute.c, update_positions: over a match state, its parents and the ranges.
--               Positions.Parts: against the text of the line
--   Rule        src/remark.h and src/rule.c: rules as data, new_multi_rule
--   Execute     src/execute.c: the rules, each a function from a state to an action and a state. A
--               state is the text, the ranges, and the frames of the match and its parents.
--               Execute.Loops and below: loops around a body that replaces nothing. Execute.Named: the
--               subexpressions that a rule names
--   Lexer       src/lexer.l: the patterns, as functions on the text in front of them, and the loop over
--               a file. Lexer.Lexemes: the parts of a script, and how they are written
--   Script      src/parser.y, what its actions do to the tables of styles and macros
--   Parser      src/parser.y: the grammar, from tokens to rules. Parser.Include: files that include
--               files, and parse_script; Parser.Syntax and Parser.Meaning: trees, and what they mean
--   Remark      src/remark.c, and execute_script of src/execute.c: options, and lines from the input to
--               the output, whose loops are given the options and the lines
--   Cacheline   src/cacheline.c: what is written for each line
--   Tests       runs at small inputs, and each theorem at an input that meets its hypotheses
--
-- A C string is the list of its characters without the null byte, and a text has none inside. A
-- 32-bit integer is its pattern, with the wrap-around written out; a signed comparison is slt32.
--
-- Loops. A loop over a list or a string recurs on it. insert_style and expand_substitution run on
-- fuel that the definitions compute, more than the steps they can take, and their theorems show a
-- result. The loops over the matches of a rule and the pieces of a line run on fuel that is an
-- argument, since they need not end; out of fuel is a result of its own. A loop along the nodes of
-- a list has one round more than the list's size. The lexer has a round for each character and one
-- more, the parser a round for each token and one more, which their theorems show to be enough;
-- included files have a depth, since a file can include itself. malloc is an address that the
-- function is given.
--
-- Not modelled: the compiled expressions of the C library and of lib/, which is a copy of another
-- project; memory that is allocated and freed, but for the nodes of a list, and reference counts;
-- the C code that flex and bison make of lexer.l and parser.y, and line numbers; files and messages
-- (src/common/io-utils.c, src/common/error.c); the sprintf functions of strbuf.c and intutil.c.
pub mod Common
pub mod Memory
pub mod StrBuf
pub mod StringUtils
pub mod Style
pub mod Ranges
pub mod HMap
pub mod LList
pub mod IntUtil
pub mod Wrap
pub mod Regex
pub mod Match
pub mod Expand
pub mod Positions
pub mod Rule
pub mod Execute
pub mod Lexer
pub mod Script
pub mod Parser
pub mod Remark
pub mod Cacheline
mod Tests
