-- ===== src/Names.antt =====
-- Names of nodes and of replicas: `replica_name_to_node_name` of plenum/server/consensus/utils.py and
-- `generateName` of plenum/server/replica_helper.py.
pub mod RoundTrip
mod Tests
use Prim.Native.Char.{Char, code}
use mathlib.Core.Option
use indy_plenum.Prelude.{
  ℕ, zero, suc, ◌+◌, ◌/◌, ◌%◌, String, Option, none, some, Bool, true, false, if◌then◌else◌, ◌==◌,
  ltb,
}

abbrev is_colon : Char → Bool
is_colon c = code c == b':'

-- `s + t`
pub append : String → String → String
append String.[] t = t
append (String.◌∷◌ c s) t = String.◌∷◌ c (append s t)

-- `':' in s`
pub has_colon : String → Bool
has_colon String.[] = false
has_colon (String.◌∷◌ c s) = if is_colon c then true else has_colon s

-- What stands before the last colon, if there is one.
pub before_last_colon : String → Option String
before_last_colon String.[] = none
before_last_colon (String.◌∷◌ c s) = elim (before_last_colon s) [
  | some p ↦ some (String.◌∷◌ c p)
  | none ↦ if is_colon c then some String.[] else none
]

-- `name.rsplit(':', maxsplit=1)[0]`
unfoldable pub node_name_of : String → String
unfolding before_last_colon
node_name_of name = elim (before_last_colon name) [ some p ↦ p | none ↦ name ]

unfoldable pub replica_name_to_node_name : Option String → Option String
unfolding node_name_of
replica_name_to_node_name = Option.map node_name_of

digit : ℕ → Char
digit n =
    if n == 0
    then "0"
    else if n == 1
    then "1"
    else if n == 2
    then "2"
    else if n == 3
    then "3"
    else if n == 4
    then "4"
    else if n == 5
    then "5"
    else if n == 6
    then "6"
    else if n == 7
    then "7"
    else if n == 8
    then "8"
    else "9"

-- The decimal digits of n in front of `rest`; n + 1 rounds are enough.
decimal : ℕ → ℕ → String → String
unfolding digit
decimal zero n rest = rest
decimal (suc rounds) n rest =
    let more = decimal rounds (n / 10) (String.◌∷◌ (digit (n % 10)) rest) in
    if ltb n 10 then String.◌∷◌ (digit n) rest else more

-- `str(n)`
pub print_nat : ℕ → String
unfolding decimal
print_nat n = decimal (suc n) n String.[]

unfoldable pub generate_name : String → ℕ → String
unfolding append has_colon print_nat
generate_name node_name inst_id =
    if has_colon node_name then node_name else append node_name (String.◌∷◌ ":" (print_nat inst_id))
