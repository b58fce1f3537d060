-- ===== src/Prelude/Strings.antt =====
-- Tests on strings.
use Prim.Native.Nat.{Ordering}
use Prim.Native.String
use Prim.Native.String.{String}
use mathlib.Core.Bool.{Bool, true, false}

-- `strcmp` of two names.
unfoldable pub same_name : String → String → Bool
same_name a b = elim (String.compare a b) [ Ordering.eq ↦ true | _ ↦ false ]
