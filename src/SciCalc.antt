-- ===== src/SciCalc.antt =====
-- The calculator, examples/sci_calc/src. Numbers is the arithmetic of engine.rs over a type of
-- floating-point numbers, Engine its state machine and the dispatch of lib.rs. Numeral is what a
-- user types, Typing what typing leaves in the entry, Evaluation the value of a calculation, Actions
-- any sequence of actions.
pub mod Numbers
pub mod Entry
pub mod Engine
pub mod Keys
pub mod Numeral
pub mod Typing
pub mod Calculation
pub mod Evaluation
pub mod Actions
pub mod Errors
mod Tests
