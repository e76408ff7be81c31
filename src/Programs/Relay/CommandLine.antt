-- ===== src/Programs/Relay/CommandLine.antt =====
-- relay_cli.cpp: the command line.
use pqc_messaging_app.Prelude.{
  ℕ, String, Bool, true, false, not, ◌&&◌, ◌||◌, Option, none, some, List, [], ◌∷◌, if◌then◌else◌,
}
use text.Mathlib.Text.{◌==◌ as str_eq}

pub record Options : Type 0 where
  pub mode : String
  pub relay : String
  pub room : String
  pub pw : String
  pub id_path : String
  pub used_flags : Bool

abbrev pub defaults : Options
defaults = record {
  mode = "";
  relay = "";
  room = "";
  pw = "";
  id_path = "client.id";
  used_flags = false;
}

-- A flag with a value: what it does with it.
unfoldable pub value_flag : String → Option (String → Options → Options)
value_flag a =
    if str_eq a "--relay" || str_eq a "-r"
    then some (λ v o. record o { relay = v; used_flags = true })
    else if str_eq a "--room" || str_eq a "-m"
    then some (λ v o. record o { room = v; used_flags = true })
    else if str_eq a "--password" || str_eq a "-p"
    then some (λ v o. record o { pw = v; used_flags = true })
    else if str_eq a "--id-file" || str_eq a "-i"
    then some (λ v o. record o { id_path = v; used_flags = true })
    else none

-- Any other argument; `none` where it asks for help.
unfoldable pub switch : String → Options → Option Options
switch a o =
    if str_eq a "--host"
    then some (record o { mode = "host"; used_flags = true })
    else if str_eq a "--connect"
    then some (record o { mode = "connect"; used_flags = true })
    else if str_eq a "--help" || str_eq a "-h"
    then none
    else some o

unfoldable pub then_flags : Option Options → (Options → Option Options) → Option Options
then_flags none later = none
then_flags (some o) later = later o

-- The loop on `argv`; `none` where it prints the usage and returns 0. A flag whose value is missing is
-- ignored.
unfoldable pub parse_flags : List String → Options → Option Options
unfolding value_flag switch then_flags
parse_flags [] o = some o
parse_flags (a ∷ []) o = switch a o
parse_flags (a ∷ b ∷ args) o = elim (value_flag a) [
  | none ↦ then_flags (switch a o) (λ o'. parse_flags (b ∷ args) o')
  | some set ↦ parse_flags args (set b o)
]

-- `argv[1]` to `argv[4]` where no flag was used; `none` where there are too few.
unfoldable pub positional : List String → Options → Option Options
positional (mode ∷ relay ∷ room ∷ pw ∷ _) o =
    some (record o { mode = mode; relay = relay; room = room; pw = pw })
positional _ o = none

-- Whether the program goes on with these.
unfoldable pub usable : Options → Bool
usable o =
    (str_eq o.mode "host" || str_eq o.mode "connect") && not (str_eq o.relay "" || str_eq o.room "")

-- An exit code with the usage printed, or the options.
pub data Command : Type 0 where
  usage : ℕ → Command
  run : Options → Command

unfoldable pub checked : Option Options → Command
unfolding usable
checked none = usage 1
checked (some o) = if usable o then run o else usage 1

unfoldable pub flags_or_positional : List String → Option Options → Command
unfolding checked positional
flags_or_positional args none = usage 0
flags_or_positional args (some o) =
    if o.used_flags then checked (some o) else checked (positional args o)

unfoldable pub command : List String → Command
unfolding parse_flags flags_or_positional
command args = flags_or_positional args (parse_flags args defaults)
