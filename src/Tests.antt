-- ===== src/Tests.antt =====
-- Runs of the model at small inputs, and the theorems at inputs that meet their hypotheses.
mod Execute
mod HMap
mod IntUtil
mod LList
mod Lexer
mod Parser
mod Positions
mod Remark
mod Ranges
mod StrBuf
mod StringUtils
mod Style
mod Wrap
