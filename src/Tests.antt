-- ===== src/Tests.antt =====
-- Concrete runs of the model, one module for each part.
mod Integers
mod Literals
mod Lexing
mod Parsing
mod Values
