-- ===== src/Lib.antt =====
-- Vexel: the front end's exact integers, its lexer, its parser, and the operators of its
-- compile-time evaluator.
--
-- Vexel is a compiler. Its front end reads modules (lexer, parser), resolves names, checks types,
-- and evaluates expressions at compile time; analyses and an optimizer work on the typed program,
-- and a back end prints C or Vexel. Four parts are modelled here.
--
-- Exact integers (frontend/src/core/apint.h, apint.cpp) hold every integer literal and every
-- compile-time integer beyond 64 bits. Limbs, LimbBits, LimbShift, Division and TwosComplement
-- model the functions of the anonymous namespace on vectors of 16-bit limbs, with the functions'
-- names; ApInt is the class, an operator under a word's name (`operator+` is `add`), and Literal
-- is what reads and prints one. A std::vector is a list with its first element at the head, an
-- in-place operation returns the new vector, and loops from the back are recursions that work on
-- the tail first. A uint32_t or uint64_t is a natural number, with its wrap-around written out in
-- the arithmetic on limbs and on the widths that a caller gives; the size of a vector in limbs or
-- bits, which memory bounds, is taken as it is, and so is a shift. The integer that a value
-- stands for is `to_ℤ` (ApInt/Meaning), and the values that the class keeps, limbs below the
-- base, none of 0 at the back and no negative zero, are `IsApInt`.
--
-- Errors (frontend/src/core/common.h) are values: a function that throws returns a `Result`, and
-- `CompileError` has a constructor of `Message` for each text of the modelled code.
--
-- The lexer (frontend/src/parse/lexer.h, lexer.cpp) is a state, `Lexer`, with methods in a monad,
-- `Lexing`: Lexer has the operations on one character, Lexer/Token the tokens, Lexer/Read the
-- readers of numbers, identifiers, strings and characters, Lexer/Operator the switch on operators
-- as data, and Lexer/Tokenize the loop. The source is kept as what is left of it, which is all
-- that the class reads of `source` and `pos`. double is a type parameter, and std::stod an
-- argument that returns `none` where it throws. Lexer/Moves is about what a method does to the
-- state.
--
-- The parser (frontend/src/parse/parser.h, parser.cpp) takes the lexer's tokens and builds the
-- syntax tree of frontend/src/core/ast.h, which is Ast, with the `make_` functions of ast.cpp in
-- Ast/Make. Parser has the state, `Parser`, and the monad of its methods, `Parsing`: a method
-- returns, throws, or runs out of fuel, and a `catch` is `attempt` or `recover`, which keep what
-- was written before the throw. The tokens are kept as those at and behind `pos`, less the
-- EndOfFile token that the lexer puts last, with the one before; a saved `pos` is a copy of them.
-- Parser/Kinds has the tests on token types, Parser/Annotations and Parser/Lookahead what looks
-- ahead, Parser/TypeSyntax types, Parser/Operators the levels of binary operators,
-- Parser/Primary, Parser/Unary, Parser/Variables, Parser/FunctionHead, Parser/Declarations and
-- Parser/Statements the rest of the grammar. A method that another one calls behind a token is a
-- field of `Parsers`, which those modules take as a parameter; Parser/Modules ties the knot,
-- `grammar`, and has `synchronize` and `parse_module`. std::stoull is written out.
-- Parser/Progress counts the tokens that each method takes, Parser/Verdict is about
-- `parse_module` as a whole, Parser/Recovery about where `synchronize` goes on, Parser/Folds
-- about the order in which operators are read, Parser/Widths about the names of integer types,
-- and Parser/Receivers about the errors of the lookahead for several receivers.
--
-- Compile-time values (frontend/src/core/cte_value.h, cte_value.cpp, cte_value_utils.cpp) are in
-- CteValue, and the integer that one stands for in CteValue/Exact. Evaluator has the primitive
-- types of common.h and the fixed-point helpers of frontend/src/transform/evaluator_binary.cpp,
-- Evaluator/Operators what `eval_binary` does for each operator, Evaluator/Binary `eval_binary`
-- itself with `to_float` of frontend/src/transform/evaluator.cpp and `APInt::to_double`, and
-- Evaluator/Unary `eval_unary`. An operand's evaluation is an argument: a thrown error, or an
-- `Attempt`, which is a value or the message of a `false`. double is a record of operations, of
-- which nothing is assumed. The numeric limits of int64_t in a sum of bit counts are not
-- modelled.
--
-- Fuel. `push_limbs` has 4 rounds, since a uint64_t has four limbs; `bit_length_u32` has 32, one
-- for each bit; `show` has 10 for the digits of a uint32_t; `decimal_chunks` has one for each
-- limb, since a division by 10 ^ 9 drops one. The loops of the lexer have one round for each
-- character that is left, and those of the parser one for each token that is left, and one more;
-- so has `grammar`, for the depth of the calls, since a call between its methods is behind a
-- token.
--
-- Not modelled: vectors and shifts too large for memory, bounds on line and column numbers and on
-- the parser's depth counters, the text of the message that combines a parse's errors, what later
-- passes write into the syntax tree, sharing of objects between compile-time values, the rest of
-- the evaluator, the resolver, type checker, optimizer, analyses, back ends, the command line,
-- and the file system.
pub mod Base
pub mod Limbs
pub mod LimbBits
pub mod Error
pub mod Division
pub mod LimbShift
pub mod TwosComplement
pub mod ApInt
pub mod Literal
pub mod CteValue
pub mod Evaluator
pub mod Lexer
pub mod Ast
pub mod Parser
pub mod Tests
