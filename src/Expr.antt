-- ===== src/Expr.antt =====
-- The expressions of the monitor: mayfly_emu/monitor/expr.c. `Number` has the conversions of C's
-- library that the code calls, `Reg` the registers' names, `Token` the splitting of a text, `Eval` the
-- evaluation of the tokens.
pub mod Number
pub mod Reg
pub mod Token
pub mod Eval
