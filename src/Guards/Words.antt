-- ===== src/Guards/Words.antt =====
-- The names in the texts of the guards, against the words of the commands.
use verlihub.Base.{
  ℕ, ◌||◌, ◌≡◌, ◌⊎◌, inl, inr, refl, List, [], ◌∷◌, some, Bytes, bytes, ◌==◌, ◌==ᵇ◌, if◌then◌else◌,
  starts_with, drop,
}
use verlihub.Message.Command.{DcMsg, keyword}
use verlihub.Guards.{Limits, length_limit, long_command}

-- A text up to its first blank or colon.
unfoldable pub up_to_break : Bytes → Bytes
up_to_break [] = []
up_to_break (c ∷ s) = let rest = up_to_break s in if c == b' ' || c == b':' then [] else c ∷ rest

unfoldable pub less_multi : Bytes → Bytes
less_multi s = if starts_with (bytes "Multi") s then drop 5 s else s

-- The name of a command in its word: what stands behind the dollar and a "Multi", up to a blank or a
-- colon.
unfoldable pub name_in : Bytes → Bytes
name_in word = up_to_break (less_multi (drop 1 word))

-- The options of the limits, by the names of the commands.
abbrev pub limits_of : Limits → List (Bytes × ℕ)
limits_of c =
    (bytes "Supports", c.max_len_supports)
    ∷ (bytes "Version", c.max_len_version)
    ∷ (bytes "MyINFO", c.max_len_myinfo)
    ∷ (bytes "IN", c.max_len_in)
    ∷ (bytes "ExtJSON", c.max_len_extjson)
    ∷ (bytes "MyHubURL", c.max_len_myhuburl)
    ∷ (bytes "Search", c.max_len_search)
    ∷ (bytes "SA", c.max_len_search)
    ∷ (bytes "SP", c.max_len_search)
    ∷ (bytes "MyNick", c.max_len_mynick)
    ∷ (bytes "Lock", c.max_len_lock)
    ∷ []

-- The limit of a name, and 0 for a name that has none.
unfoldable pub limit_of : List (Bytes × ℕ) → Bytes → ℕ
limit_of [] name = 0
limit_of (l ∷ ls) name = let rest = limit_of ls name in if l.0 ==ᵇ name then l.1 else rest

pub length_limit-limit_of :
    (c : Limits) (t : DcMsg)
    → length_limit c (some t) ≡ limit_of (limits_of c) (name_in (keyword t))
unfolding length_limit limit_of name_in up_to_break less_multi starts_with drop keyword ◌==ᵇ◌
length_limit-limit_of c DcMsg.connect_to_me = refl
length_limit-limit_of c _ = refl

-- A command with a limit is called by its name.
pub long_command-name_in :
    (c : Limits) (t : DcMsg)
    → (length_limit c (some t) ≡ 0) ⊎ (long_command (some t) ≡ name_in (keyword t))
unfolding length_limit long_command name_in up_to_break less_multi starts_with drop keyword
long_command-name_in c DcMsg.msearch = inr refl
long_command-name_in c DcMsg.msearch_pas = inr refl
long_command-name_in c DcMsg.supports = inr refl
long_command-name_in c DcMsg.version = inr refl
long_command-name_in c DcMsg.my_info = inr refl
long_command-name_in c DcMsg.in_ = inr refl
long_command-name_in c DcMsg.ext_json = inr refl
long_command-name_in c DcMsg.my_hub_url = inr refl
long_command-name_in c DcMsg.tths = inr refl
long_command-name_in c DcMsg.tths_pas = inr refl
long_command-name_in c DcMsg.search_pas = inr refl
long_command-name_in c DcMsg.search = inr refl
long_command-name_in c DcMsg.my_nick = inr refl
long_command-name_in c DcMsg.lock = inr refl
long_command-name_in c _ = inl refl
