-- ===== src/Users.antt =====
-- src/cusercollection.{h,cpp} and the parts of src/cuser.{h,cpp} that a collection uses. A pointer
-- to a user is a number, and the users it may point to are the memory `users`; what a collection
-- does to a connection is the list of its `Send` calls. `tolower` depends on the locale, and is a
-- parameter: the byte that a byte becomes.
pub mod Maker
pub mod Broadcast
pub mod Listing
pub mod Invariant
pub mod Answers
pub mod Listed
pub mod Delivery
pub mod Received
pub mod History
use verlihub.Base.{
  ℕ, zero, suc, ◌+◌, ◌-◌, ◌*◌, ◌/◌, ◌%◌, ◌^◌, Bool, true, false, not, ◌&&◌, ◌||◌, Option, none,
  some, List, [], ◌∷◌, ◌++◌, map, ℤ, pos, negsuc, to_unsigned, Bytes, bytes, ◌==◌, ltb,
  if◌then◌else◌, length, take,
}

-- `mxConn` of a user: its features in `$Supports`, its address, and whether it is still open.
pub record Connection : Type 0 where
  pub features : ℕ
  pub address : Bytes
  pub is_open : Bool

pub record User : Type 0 where
  pub nick : Bytes
  pub fake_my_info : Bytes
  pub user_class : ℤ
  pub in_list : Bool
  pub my_flag : ℕ
  pub connection : Option Connection

abbrev pub Users : Type 0
Users = ℕ → User

-- `a & b` on words of `w` bits
unfoldable pub bit_and : ℕ → ℕ → ℕ → ℕ
bit_and zero a b = 0
bit_and (suc w) a b = let rest = bit_and w (a / 2) (b / 2) in (a % 2) * (b % 2) + 2 * rest

-- `mxConn && mxConn->ok`
unfoldable pub is_connected : Option Connection → Bool
is_connected none = false
is_connected (some c) = c.is_open

unfoldable pub can_send : User → Bool
can_send u = u.in_list && is_connected u.connection

-- `mxConn && (mxConn->mFeatures & feature)`
unfoldable pub connection_has : ℕ → Option Connection → Bool
connection_has feature none = false
connection_has feature (some c) = not (bit_and 32 c.features feature == 0)

unfoldable pub has_feature : ℕ → User → Bool
has_feature feature u = connection_has feature u.connection

unfoldable pub get_my_flag : ℕ → User → Bool
get_my_flag flag u = bit_and 16 u.my_flag flag == flag

-- A `char` in arithmetic
unfoldable pub signed_char : ℕ → ℤ
signed_char c = if ltb c 128 then pos c else negsuc (255 - c)

-- `HashString`, from hash `h` on, up to a NUL.
unfoldable pub hash_string : ℕ → Bytes → ℕ
hash_string h [] = h
hash_string h (c ∷ s) =
    let rest = hash_string ((33 * h + to_unsigned 64 (signed_char c)) % 2 ^ 64) s in
    if c == 0 then h else rest

unfoldable pub nick_to_key : (ℕ → ℕ) → Bytes → Bytes
nick_to_key lower nick = map lower nick

unfoldable pub nick_to_hash : (ℕ → ℕ) → Bytes → ℕ
nick_to_hash lower nick = hash_string 0 (nick_to_key lower nick)
