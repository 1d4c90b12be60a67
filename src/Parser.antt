-- ===== src/Parser.antt =====
-- src/parser/parser.h, parser.cpp and ast.h: from the tokens to statements.
pub mod Ast
pub mod Cursor
pub mod Words
pub mod Having
pub mod Where
pub mod Select
pub mod Tables
pub mod Statements
pub mod Takes
pub mod Precedence
pub mod Numbers
pub mod Printed
pub mod Inserts
pub mod Plain
pub mod Bounds
