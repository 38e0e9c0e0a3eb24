-- ===== src/Contract/Common/Ids.antt =====
-- The identities of the protocol (`protocolIdSchema` of src/contract/common.ts): a schema that parses
-- one turns its letters into upper case. Only ULIDs pass, which are letters and digits of ASCII.
use Prim.Native.Char.{Char, code}
use Prim.Native.String.{String, [], ◌∷◌, char_at}
use mosoo_agent_driver.Base.{◌-◌, ◌&&◌, leb, if◌then◌else◌}

abbrev pub upper_char : Char → Char
upper_char c =
    if leb 97 (code c) && leb (code c) 122
    then char_at "ABCDEFGHIJKLMNOPQRSTUVWXYZ" (code c - 97)
    else c

-- `value.toUpperCase()`
abbrev pub canonical_id : String → String
canonical_id [] = []
canonical_id (c ∷ s) = upper_char c ∷ canonical_id s
