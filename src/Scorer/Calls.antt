-- ===== src/Scorer/Calls.antt =====
-- internal/scorer: the calls that a harness made, and the calls that a case expects. The JSON of the
-- arguments is parsed by package encoding/json.
pub mod Names
use dittobench_api.Base.{
  ℕ, ◌+◌, ◌-◌, String, Bool, true, false, Option, none, some, List, [], ◌∷◌, ◌==◌, nat_eq,
  string_eq, if◌then◌else◌, length,
}
use dittobench_api.Base.Assoc.{Assoc, lookup, insert}

-- The value of an argument: a JSON string, or any other with its encoding, if it has one.
pub data ArgValue : Type 0 where
  text : List ℕ → ArgValue
  encoded : Option (List ℕ) → ArgValue

-- protocol.ObservedToolCall, its arguments as parseArgs gives them.
pub record ObservedCall : Type 0 where
  pub name : String
  pub args : Assoc ArgValue

-- protocol.ToolSpec, its required arguments in the order of their keys.
pub record ToolSpec : Type 0 where
  pub name : String
  pub required_args : List (String × List ℕ)
  pub forbidden_args : List String

-- The fields of protocol.ToolCase that the score reads.
pub record ToolCase : Type 0 where
  pub category : String
  pub expected_tools : List ToolSpec
  pub allow_extra_tools : Bool
  pub unordered : Bool
  pub fuzzy_trajectory : Bool
  pub max_tool_calls : ℕ

-- m[name] of a map[string]int that holds no negative number.
unfoldable pub number_of : String → Assoc ℕ → ℕ
number_of name counts = elim (lookup name counts) [ none ↦ 0 | some n ↦ n ]

-- The loop that counts the names of calls.
unfoldable pub count_names : List ObservedCall → Assoc ℕ → Assoc ℕ
unfolding number_of
count_names [] counts = counts
count_names (c ∷ cs) counts = count_names cs (insert c.name (number_of c.name counts + 1) counts)

-- The loop that takes them off again, until a count would fall below zero.
unfoldable pub discount_names : List ObservedCall → Assoc ℕ → Bool
unfolding number_of
discount_names [] counts = true
discount_names (c ∷ cs) counts =
    let rest = discount_names cs (insert c.name (number_of c.name counts - 1) counts) in
    if number_of c.name counts == 0 then false else rest

unfoldable pub same_name_multiset : List ObservedCall → List ObservedCall → Bool
unfolding count_names discount_names
same_name_multiset a b = if length a == length b then discount_names b (count_names a []) else false
