-- ===== src/Base/Text.antt =====
-- Strings as byte lists, and the searches of `std::string` that the program uses.
use Prim.Native.Nat.{ℕ, suc, ◌+◌}
use Prim.Native.Char.{code}
use Prim.Native.String.{String}
use mathlib.Core.Bool.{Bool, true, false, ◌&&◌}
use mathlib.Core.List.{[], ◌∷◌, ◌++◌}
use mathlib.Core.Option.{Option, none, some}
use mathlib.Core.Option
use verlihub.Base.Tests.{◌==◌, leb, if◌then◌else◌}
use verlihub.Base.Lists.{Bytes, length, take, drop}

-- The bytes of an ASCII literal.
abbrev pub bytes : String → Bytes
bytes String.[] = []
bytes (String.◌∷◌ c s) = code c ∷ bytes s

-- `s.compare(0, lim.size(), lim) == 0`: `lim` is a prefix of `s`.
unfoldable pub starts_with : Bytes → Bytes → Bool
starts_with [] s = true
starts_with (l ∷ lim) [] = false
starts_with (l ∷ lim) (c ∷ s) = c == l && starts_with lim s

-- `s.find(lim)`: the first position at which `lim` stands.
unfoldable pub find_text : Bytes → Bytes → Option ℕ
find_text lim [] = if starts_with lim [] then some 0 else none
find_text lim (c ∷ s) =
    let rest = find_text lim s in if starts_with lim (c ∷ s) then some 0 else Option.map suc rest

-- `s.find_first_of(c)`
unfoldable pub find_byte : ℕ → Bytes → Option ℕ
find_byte b [] = none
find_byte b (c ∷ s) = let rest = find_byte b s in if c == b then some 0 else Option.map suc rest

-- The last position of a byte.
unfoldable pub find_last_byte : ℕ → Bytes → Option ℕ
find_last_byte b [] = none
find_last_byte b (c ∷ s) = elim (find_last_byte b s) [
  | some i ↦ some (suc i)
  | none ↦ if c == b then some 0 else none
]

-- `s.find(lim, start)` and `s.find_first_of(c, start)`: nothing is found behind the end.
unfoldable pub find_text_from : Bytes → Bytes → ℕ → Option ℕ
find_text_from lim s start =
    if leb start (length s)
    then Option.map (λ i. start + i) (find_text lim (drop start s))
    else none

unfoldable pub find_byte_from : ℕ → Bytes → ℕ → Option ℕ
find_byte_from b s start = Option.map (λ i. start + i) (find_byte b (drop start s))

-- `s.find_last_of(c, last)`: the last position up to `last`.
unfoldable pub find_last_byte_to : ℕ → Bytes → ℕ → Option ℕ
find_last_byte_to b s last = find_last_byte b (take (suc last) s)

-- The last position up to `last` at which `lim` stands: `s.rfind(lim, last)`.
unfoldable pub find_last_text : Bytes → Bytes → Option ℕ
find_last_text lim [] = if starts_with lim [] then some 0 else none
find_last_text lim (c ∷ s) = elim (find_last_text lim s) [
  | some i ↦ some (suc i)
  | none ↦ if starts_with lim (c ∷ s) then some 0 else none
]

unfoldable pub find_last_text_to : Bytes → Bytes → ℕ → Option ℕ
find_last_text_to lim s last = find_last_text lim (take (last + length lim) s)

-- `s.substr(start, len)` and `s.replace(start, len, by)`
unfoldable pub substr : Bytes → ℕ → ℕ → Bytes
substr s start len = take len (drop start s)

unfoldable pub replace : Bytes → ℕ → ℕ → Bytes → Bytes
replace s start len by = take start s ++ (by ++ drop (start + len) s)
