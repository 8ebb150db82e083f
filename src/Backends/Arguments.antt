-- ===== src/Backends/Arguments.antt =====
-- The arguments of a signing tool, as the tool reads them.
use codesign.Common.{
  ◌≡◌, refl, false, List, [], ◌∷◌, ◌++◌, Option, none, some, Bytes, equal, if◌then◌else◌,
}
use codesign.Common.Store.{Store, content}
use codesign.Backends.{flag}

-- Names and values take turns; the value behind the first one of this name.
unfoldable pub option_of : Bytes → List Bytes → Option Bytes
option_of name [] = none
option_of name (_ ∷ []) = none
option_of name (key ∷ value ∷ options) =
    let rest = option_of name options in if equal key name then some value else rest

-- The tool is told a file that holds the PIN, if there is one.
abbrev pub GivesPin : Bytes → Bytes → Bytes → List Bytes → Store → Type 0
GivesPin name prefix [] options s = Unit {0}
GivesPin name prefix (c ∷ pin) options s =
    (path : Bytes) × (option_of name options ≡ some (prefix ++ path))
    × (content path s ≡ some (c ∷ pin))

-- The options behind the name of a subcommand.
abbrev pub tail_of : List Bytes → List Bytes
tail_of [] = []
tail_of (command ∷ options) = options

-- A flag of another name is passed over, and one of this name is found, in front of more arguments.
pub option_of-flag_behind :
    (name key value : Bytes) (options more : List Bytes)
    → equal key name ≡ false
    → option_of name ((flag key value ++ options) ++ more) ≡ option_of name (options ++ more)
unfolding option_of
option_of-flag_behind name key [] options more other = refl
option_of-flag_behind name key (c ∷ value) options more other = rw other refl
