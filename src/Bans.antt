-- ===== src/Bans.antt =====
-- src/cbanlist.{h,cpp}: the temporary bans of `cBanList`, which stand in two hash tables, one for
-- nicks and one for addresses. A table holds pointers to bans: a change of a ban that it holds is a
-- change of the item. Times are seconds from the epoch on. `tolower` depends on the locale, and is an argument.
pub mod Lookup
pub mod Expiry
pub mod Calls
use mathlib.Core.List.{flatten}
use verlihub.Base.{
  ℕ, ◌+◌, ◌*◌, ◌%◌, ◌^◌, Bool, true, false, ◌||◌, Option, none, some, List, [], ◌∷◌, ℤ, to_unsigned,
  ◌==◌, ltb, if◌then◌else◌, Bytes,
}
use verlihub.Run.{Run, ok, fault, null_pointer, ◌>>=◌, modulo}
use verlihub.HashArray.Chain.{Item, set_item}
use verlihub.HashArray.{
  HashArray, nullable_chain, unique_get, write_chain, is_some, get_by_hash, contains_hash,
  add_with_hash, remove_by_hash,
}
use verlihub.Address.{ip2num}

pub record TempBan : Type 0 where
  pub until : ℕ
  pub reason : Bytes
  pub type : ℕ

pub record BanList : Type 0 where
  pub nicks : HashArray TempBan
  pub ips : HashArray TempBan

-- `HashLowerString`, from hash `h` on, up to a NUL.
unfoldable pub hash_lower_string : (ℕ → ℤ) → ℕ → Bytes → ℕ
hash_lower_string lower h [] = h
hash_lower_string lower h (c ∷ s) =
    let rest = hash_lower_string lower ((33 * h + to_unsigned 64 (lower c)) % 2 ^ 64) s in
    if c == 0 then h else rest

-- The fields of the ban that a table holds for a hash are set.
unfoldable pub write_ban : HashArray TempBan → ℕ → TempBan → Run (HashArray TempBan)
write_ban m h b = do
  i ← modulo h m.buckets.capacity
  items ← unique_get m.buckets i
  ok (record m { buckets = write_chain m.buckets i (set_item h (some b) items).1 })

-- The common part of the functions that add a ban, and of those that delete one.
unfoldable pub put_ban : HashArray TempBan → ℕ → TempBan → Run (HashArray TempBan)
put_ban m h b =
    get_by_hash m h
    >>= (λ t. if is_some t then write_ban m h b else (add_with_hash m (some b) h >>= (λ r. ok r.1)))

unfoldable pub drop_ban : HashArray TempBan → ℕ → Run (HashArray TempBan)
drop_ban m h =
    get_by_hash m h >>= (λ t. if is_some t then (remove_by_hash m h >>= (λ r. ok r.1)) else ok m)

unfoldable pub add_nick_temp_ban : (ℕ → ℤ) → BanList → Bytes → TempBan → Run BanList
add_nick_temp_ban lower l nick b =
    put_ban l.nicks (hash_lower_string lower 0 nick) b >>= (λ m. ok (record l { nicks = m }))

-- The function that takes the address as a number; nothing is done for a text that is none.
unfoldable pub add_ip_number_ban : BanList → Option ℕ → TempBan → Run BanList
add_ip_number_ban l none b = ok l
add_ip_number_ban l (some n) b = put_ban l.ips n b >>= (λ m. ok (record l { ips = m }))

unfoldable pub add_ip_temp_ban : BanList → Bytes → TempBan → Run BanList
add_ip_temp_ban l ip b = add_ip_number_ban l (ip2num ip false) b

unfoldable pub del_nick_temp_ban : (ℕ → ℤ) → BanList → Bytes → Run BanList
del_nick_temp_ban lower l nick =
    drop_ban l.nicks (hash_lower_string lower 0 nick) >>= (λ m. ok (record l { nicks = m }))

unfoldable pub del_ip_number_ban : BanList → Option ℕ → Run BanList
del_ip_number_ban l none = ok l
del_ip_number_ban l (some n) = drop_ban l.ips n >>= (λ m. ok (record l { ips = m }))

unfoldable pub del_ip_temp_ban : BanList → Bytes → Run BanList
del_ip_temp_ban l ip = del_ip_number_ban l (ip2num ip false)

unfoldable pub is_nick_temp_banned : (ℕ → ℤ) → BanList → Bytes → Run Bool
is_nick_temp_banned lower l nick = contains_hash l.nicks (hash_lower_string lower 0 nick)

unfoldable pub is_ip_number_banned : BanList → Option ℕ → Run Bool
is_ip_number_banned l none = ok false
is_ip_number_banned l (some n) = contains_hash l.ips n

unfoldable pub is_ip_temp_banned : BanList → Bytes → Run Bool
is_ip_temp_banned l ip = is_ip_number_banned l (ip2num ip false)

-- `!before || (Until < before)`
unfoldable pub is_old : ℕ → TempBan → Bool
is_old limit b = (limit == 0) || ltb b.until limit

unfoldable pub is_old_item : ℕ → Option TempBan → Run Bool
is_old_item limit none = fault null_pointer
is_old_item limit (some b) = ok (is_old limit b)

-- One loop of `RemoveOldShortTempBans`, over the items that its iterator meets: it is moved on
-- before an item is removed.
unfoldable pub expire_items :
    ℕ → List (Item TempBan) → HashArray TempBan → ℕ → Run (ℕ × HashArray TempBan)
expire_items limit [] m n = ok (n, m)
expire_items limit (i ∷ is) m n = is_old_item limit i.value >>= (λ old.
    if old
    then (remove_by_hash m i.hash >>= (λ r. expire_items limit is r.1 (n + 1)))
    else expire_items limit is m n)

unfoldable pub remove_old_short_temp_bans : ℕ → BanList → Run (ℕ × BanList)
remove_old_short_temp_bans limit l = do
  a ← expire_items limit (flatten l.nicks.buckets.cells) l.nicks 0
  b ← expire_items limit (flatten l.ips.buckets.cells) l.ips a.0
  ok (b.0, record { nicks = a.1; ips = b.1 })
