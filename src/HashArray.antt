-- ===== src/HashArray.antt =====
-- src/thasharray.h: `tUniqueHashArray` and `tHashArray`. A pointer to an `sItem` is the list of the
-- items that hang on it, NULL is the empty list; a DataType pointer is an `Option`. Memory is
-- freed nowhere: a deleted item is one that no list holds any more.
pub mod Chain
pub mod Buckets
pub mod Table
pub mod Unique
pub mod Add
pub mod Remove
pub mod Resize
pub mod AutoResize
pub mod History
use verlihub.Base.{
  ℕ, zero, suc, ◌+◌, ◌-◌, ◌*◌, ◌/◌, ◌%◌, ◌^◌, Bool, true, false, ◌||◌, not, Option, none, some,
  List, [], ◌∷◌, ◌==◌, ltb, if◌then◌else◌, length, set, replicate,
}
use verlihub.Run.{Run, ok, fault, ◌>>=◌, modulo, at}
use Chain.{Item, find, set_item, add_data, delete_hash}

-- `DataType` with `(DataType)NULL`.
pub record Nullable {ℓ} (A : Type ℓ) : Type ℓ where
  pub null : A
  pub is_null : A → Bool

-- `unsigned` counters
abbrev pub word : ℕ
word = 2 ^ 32

abbrev pub inc : ℕ → ℕ
inc n = (n + 1) % word

abbrev pub dec : ℕ → ℕ
dec n = (n + word - 1) % word

pub record UniqueHashArray {ℓ} (A : Type ℓ) : Type ℓ where
  pub cells : List A
  pub used : ℕ
  pub capacity : ℕ

module _ {ℓ} {A : Type ℓ} ⦃nullable : Nullable A⦄ where
  unfoldable pub unique_new : ℕ → UniqueHashArray A
  unique_new n = record { cells = replicate n nullable.null; used = 0; capacity = n }

  -- `if (hash > mCapacity) hash %= mCapacity`
  unfoldable pub unique_slot : UniqueHashArray A → ℕ → Run ℕ
  unique_slot a hash = if ltb a.capacity hash then modulo hash a.capacity else ok hash

  unfoldable pub unique_get : UniqueHashArray A → ℕ → Run A
  unique_get a hash = do i ← unique_slot a hash; at a.cells i

  -- The old data, and the new array; an occupied cell is left alone.
  unfoldable pub unique_insert : UniqueHashArray A → A → ℕ → Run (A × UniqueHashArray A)
  unique_insert a new hash = do
    i ← unique_slot a hash
    old ← at a.cells i
    ok (
      old,
      (if nullable.is_null old
          then record a {
            cells = set a.cells i new;
            used = (if nullable.is_null new then a.used else inc a.used);
          }
          else a),
    )

  unfoldable pub unique_update : UniqueHashArray A → A → ℕ → Run (A × UniqueHashArray A)
  unique_update a new hash = do
    i ← unique_slot a hash
    old ← at a.cells i
    ok (
      old,
      record a {
        cells = set a.cells i new;
        used =
            (if nullable.is_null old
              then (if nullable.is_null new then a.used else inc a.used)
              else (if nullable.is_null new then dec a.used else a.used));
      },
    )

  unfoldable pub unique_remove : UniqueHashArray A → ℕ → Run (A × UniqueHashArray A)
  unique_remove a hash = do
    i ← unique_slot a hash
    old ← at a.cells i
    ok (
      old,
      record a {
        cells = set a.cells i nullable.null;
        used = (if nullable.is_null old then a.used else dec a.used);
      },
    )

-- A virtual call that the table makes: `cUserCollection` overrides both.
pub data Hook {ℓ} (D : Type ℓ) : Type ℓ where
  on_add : D → Hook D
  on_remove : D → Hook D

-- `hooks` lists the virtual calls made so far, the last one first.
pub record HashArray {ℓ} (D : Type ℓ) : Type ℓ where
  pub buckets : UniqueHashArray (List (Item D))
  pub size : ℕ
  pub is_resizing : Bool
  pub hooks : List (Hook D)

abbrev pub is_empty {ℓ} : {A : Type ℓ} → List A → Bool
is_empty [] = true
is_empty (x ∷ xs) = false

module _ {ℓ} {D : Type ℓ} where
  instance abbrev pub nullable_chain : Nullable (List (Item D))
  nullable_chain = record { null = []; is_null = is_empty }

  unfoldable pub new : ℕ → HashArray D
  new n = record { buckets = unique_new n; size = 0; is_resizing = false; hooks = [] }

  -- `if (!mIsResizing) { OnAdd(element); mSize++; }`
  unfoldable pub counted : HashArray D → D → HashArray D
  counted m d = record m {
    size = (if m.is_resizing then m.size else inc m.size);
    hooks = (if m.is_resizing then m.hooks else on_add d ∷ m.hooks);
  }

  -- `if (NULL == Items->AddData(…)) … else return false`
  unfoldable pub added_unless : Option D → D → HashArray D → Bool × HashArray D
  added_unless none d m = (true, counted m d)
  added_unless (some old) d m = (false, m)

  -- A chain that was changed through its first item, which stays where it is.
  unfoldable pub write_chain :
      UniqueHashArray (List (Item D)) → ℕ → List (Item D) → UniqueHashArray (List (Item D))
  write_chain a i c = record a { cells = set a.cells i c }

  -- `AddWithHash` behind the test of the bucket
  unfoldable pub add_to_chain : HashArray D → D → ℕ → ℕ → List (Item D) → Run (Bool × HashArray D)
  add_to_chain m d h i [] = do
    (old, a) ← unique_insert m.buckets (record { value = some d; hash = h } ∷ []) i
    ok (true, counted (record m { buckets = a }) d)
  add_to_chain m d h i (head ∷ rest) =
      let r = add_data (some d) h (head ∷ rest) in
      ok (added_unless r.0 d (record m { buckets = write_chain m.buckets i r.1 }))

  unfoldable pub add_with_hash : HashArray D → Option D → ℕ → Run (Bool × HashArray D)
  add_with_hash m none h = ok (false, m)
  add_with_hash m (some d) h = do
    i ← modulo h m.buckets.capacity
    items ← unique_get m.buckets i
    add_to_chain m d h i items

  unfoldable pub get_by_hash : HashArray D → ℕ → Run (Option D)
  get_by_hash m h = do
    i ← modulo h m.buckets.capacity
    items ← unique_get m.buckets i
    ok (find h items)

  unfoldable pub is_some : Option D → Bool
  is_some none = false
  is_some (some d) = true

  unfoldable pub contains_hash : HashArray D → ℕ → Run Bool
  contains_hash m h = do
    i ← modulo h m.buckets.capacity
    items ← unique_get m.buckets i
    ok (is_some (find h items))

  -- The result is the old value, read as a truth value.
  unfoldable pub set_by_hash : HashArray D → ℕ → Option D → Run (Bool × HashArray D)
  set_by_hash m h v = do
    i ← modulo h m.buckets.capacity
    items ← unique_get m.buckets i
    let r = set_item h v items
    ok (
        (if is_empty items
          then (false, m)
          else (is_some r.0, record m { buckets = write_chain m.buckets i r.1 })))

  -- `if (NULL != Data) { OnRemove(Data); mSize--; return true; } return false;`
  unfoldable pub removed : Option D → HashArray D → Bool × HashArray D
  removed none m = (false, m)
  removed (some d) m = (true, record m { size = dec m.size; hooks = on_remove d ∷ m.hooks })

  -- `RemoveByHash` behind the test of the bucket: where the head goes, the next item is stored.
  unfoldable pub remove_from_chain : HashArray D → ℕ → ℕ → List (Item D) → Run (Bool × HashArray D)
  remove_from_chain m h i [] = ok (false, m)
  remove_from_chain m h i (head ∷ rest) =
      let r = delete_hash h (head ∷ rest) in
      if head.hash == h
      then unique_update m.buckets r.1 i >>= (λ u. ok (removed r.0 (record m { buckets = u.1 })))
      else ok (removed r.0 (record m { buckets = write_chain m.buckets i r.1 }))

  unfoldable pub remove_by_hash : HashArray D → ℕ → Run (Bool × HashArray D)
  remove_by_hash m h = do
    i ← modulo h m.buckets.capacity
    items ← unique_get m.buckets i
    remove_from_chain m h i items

  -- The body of the loop of `Resize` over the items of one bucket, then over the buckets: the order
  -- of `iterator::operator++`.
  unfoldable pub move_items : List (Item D) → HashArray D → Run (HashArray D)
  move_items [] m = ok m
  move_items (i ∷ is) m = do r ← add_with_hash m i.value i.hash; move_items is r.1

  unfoldable pub move_buckets : List (List (Item D)) → HashArray D → Run (HashArray D)
  move_buckets [] m = ok m
  move_buckets (c ∷ cs) m = do m' ← move_items c m; move_buckets cs m'

  unfoldable pub resize : HashArray D → ℕ → Run (HashArray D)
  resize m n = do
    m' ← move_buckets m.buckets.cells (record m { buckets = unique_new n; is_resizing = true })
    ok (record m' { is_resizing = false })

  unfoldable pub auto_resize : HashArray D → Run (HashArray D)
  auto_resize m =
      if ltb (m.buckets.capacity * 2 % word) m.size
        || ltb ((m.size * 2 + 1) % word) m.buckets.capacity
      then resize m ((m.size + m.size / 2 + 1) % word)
      else ok m
