-- ===== src/Persistence/Plain.antt =====
-- A text encoding of tool calls that meets the laws of `Json`, for the tests: each character is
-- marked, so that the end of a text can be told from its characters.
use Prim.Native.Char.{Char}
use agent_sdk.Prelude.{
  String, ◌≡◌, refl, ap, false, Option, none, some, List, [], ◌∷◌, str_eq, str_eq→eq, Bool-cases,
  inl, inr, if◌then◌else◌,
}
use agent_sdk.Core.Message.{ToolCall}
use agent_sdk.Persistence.History.{Json}

quote : String → String → String
quote String.[] rest = String.◌∷◌ "." (String.◌∷◌ "." rest)
quote (String.◌∷◌ c s) rest = String.◌∷◌ "-" (String.◌∷◌ c (quote s rest))

quote_all : List ToolCall → String
unfolding quote
quote_all [] = ""
quote_all (c ∷ calls) = quote c.id (quote c.tool_name (quote c.arguments (quote_all calls)))

in_front : Char → List String → List String
in_front c [] = String.◌∷◌ c "" ∷ []
in_front c (t ∷ ts) = String.◌∷◌ c t ∷ ts

texts : String → List String
unfolding in_front
texts String.[] = []
texts (String.◌∷◌ k String.[]) = []
texts (String.◌∷◌ k (String.◌∷◌ c s)) =
    let rest = texts s in if str_eq (String.◌∷◌ k "") "-" then in_front c rest else "" ∷ rest

group : List String → List ToolCall
group (a ∷ b ∷ c ∷ rest) = record { id = a; tool_name = b; arguments = c } ∷ group rest
group _ = []

texts-quote : (s rest : String) → texts (quote s rest) ≡ s ∷ texts rest
unfolding texts quote in_front str_eq
texts-quote String.[] rest = refl
texts-quote (String.◌∷◌ c s) rest = ap (in_front c) (texts-quote s rest)

group-texts : (calls : List ToolCall) → group (texts (quote_all calls)) ≡ calls
unfolding group quote_all texts
group-texts [] = refl
group-texts (c ∷ calls) =
    rw (texts-quote, texts-quote, texts-quote, group) (ap (◌∷◌ c) (group-texts calls))

abbrev bracketed : List ToolCall → String
bracketed calls = String.◌∷◌ "[" (quote_all calls)

parse : String → Option (List ToolCall)
parse String.[] = none
parse (String.◌∷◌ c s) = some (group (texts s))

not_empty : (calls : List ToolCall) → str_eq (bracketed calls) "" ≡ false
not_empty calls = elim (Bool-cases (str_eq (bracketed calls) "")) [
  | inl e ↦ let same = str_eq→eq _ _ e in cc
  | inr e ↦ e
]

unfoldable pub plain : Json
unfolding parse quote_all group texts group-texts not_empty texts-quote quote in_front
plain = record {
  dumps = bracketed;
  loads = parse;
  loads-dumps = λ calls. ap some (group-texts calls);
  dumps-nonempty = not_empty;
}
