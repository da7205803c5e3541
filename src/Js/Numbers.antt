-- ===== src/Js/Numbers.antt =====
-- What the scripts use of JavaScript's number type. The theorems hold for every such type, so for
-- that of IEEE doubles; `Js/Decimal.antt` is one that evaluates.
use budget_app.Base.{ℕ, Bool, String}

pub record Number (N : Type 0) : Type 0 where
  -- the value of a literal
  pub of_nat : ℕ → N
  pub add : N → N → N
  pub sub : N → N → N
  pub mul : N → N → N
  pub div : N → N → N
  -- `==` and `<` between two numbers
  pub eq : N → N → Bool
  pub lt : N → N → Bool
  -- `parseFloat(s)` and the conversion `Number(s)`
  pub parse_float : String → N
  pub to_number : String → N
  -- `parseInt(s, radix)`; radix 0 is a call without one
  pub parse_int : ℕ → String → N
  -- `Math.round(x)`
  pub round : N → N
  -- `x.toFixed(2)` and `String(x)`
  pub to_fixed : N → String
  pub show : N → String
