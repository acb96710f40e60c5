-- ===== src/Tests/Tables.antt =====
-- Hash tables with two buckets.
use verlihub.Base.{
  ℕ, ◌≡◌, ◌↔◌, ◌≢◌, refl, arith, true, false, List, [], ◌∷◌, some, none, replicate, get_or,
  get_elem?, set, Option, ◌%◌, ◌<◌, ◌^◌, ◌==◌, if◌then◌else◌, ◌∙◌,
}
use verlihub.Run.{ok, fault, out_of_range, ◌>>=◌, modulo, at, or_out_of_range, Returns}
use verlihub.HashArray.Chain.{find, set_item, add_data, delete_hash}
use verlihub.HashArray.{
  HashArray, UniqueHashArray, Nullable, unique_new, unique_slot, unique_get, unique_insert,
  unique_update, unique_remove, new, counted, added_unless, write_chain, add_to_chain,
  add_with_hash, get_by_hash, contains_hash, is_some, set_by_hash, removed, remove_from_chain,
  remove_by_hash, move_items, move_buckets, resize, auto_resize,
}
use verlihub.HashArray.Unique.{unique_get-out_of_range, unique_update-get}
use verlihub.HashArray.Add.{Added, Added-IsValid, add_with_hash-Added}
use verlihub.HashArray.AutoResize.{Kept, auto_resize-Kept}
use verlihub.HashArray.History.{
  Call, adds, removes, resizes, step, run, spec_run, Refines, new-Refines, run-new,
}

table : Unit {0}
unfolding replicate get_or get_elem? set modulo at or_out_of_range find set_item add_data
    delete_hash unique_new unique_slot unique_get unique_insert unique_update unique_remove new
    counted added_unless write_chain add_to_chain add_with_hash get_by_hash contains_hash is_some
    set_by_hash removed remove_from_chain remove_by_hash move_items move_buckets resize auto_resize
    run spec_run step
table = tt

abbrev calls : List (Call ℕ)
calls =
    adds (some 70) 3 ∷ adds (some 71) 5 ∷ adds (some 72) 3 ∷ resizes 4 ∷ removes 5 ∷ removes 9 ∷ []

answers : run (new 2) calls >>= (λ r. ok r.0) ≡ ok (true ∷ true ∷ false ∷ true ∷ true ∷ false ∷ [])
unfolding table
answers = refl

lookup_kept : run (new 2) calls >>= (λ r. get_by_hash r.1 3) ≡ ok (some 70)
unfolding table
lookup_kept = refl

lookup_removed : run (new 2) calls >>= (λ r. contains_hash r.1 5) ≡ ok false
unfolding table
lookup_removed = refl

size_after : run (new 2) calls >>= (λ r. ok r.1.size) ≡ ok 1
unfolding table
size_after = refl

run-new_example :
    Returns
      (run (new 2) calls)
      λ r. (r.0 ≡ (spec_run (λ q. none) calls).0) × Refines (spec_run (λ q. none) calls).1 r.1
run-new_example = run-new 2 calls (omega arith)

-- A table of eight buckets with one item, which is too wide for it.
empty : Refines {D = ℕ} (λ q. none) (new 8)
empty = new-Refines 8 (omega arith)

one-Added : Returns (add_with_hash {D = ℕ} (new 8) (some 70) 3) (Added (new 8) 70 3)
one-Added = add_with_hash-Added (new 8) empty.valid.table 70 3

abbrev wide : HashArray ℕ
wide = one-Added.0.1

wide-small : (wide.size < 2 ^ 30) × (wide.buckets.capacity < 2 ^ 31)
unfolding new unique_new
wide-small = ground (arith, one-Added.2.size, one-Added.2.capacity)

auto_resize-Kept_example : Returns (auto_resize wide) (Kept wide)
auto_resize-Kept_example =
    auto_resize-Kept wide
      (Added-IsValid (new 8) 70 3 one-Added.0 empty.valid empty.idle one-Added.2)
      (one-Added.2.resizing ∙ empty.idle) wide-small.0 wide-small.1

instance abbrev nullable_number : Nullable (Option ℕ)
nullable_number = record { null = none; is_null = λ o. elim o [ none ↦ true | some n ↦ false ] }

abbrev pair_array : UniqueHashArray (Option ℕ)
pair_array = record { cells = some 4 ∷ none ∷ []; used = 1; capacity = 2 }

unique_get-out_of_range_example : (unique_get pair_array 2 ≡ fault out_of_range) ↔ (◌≡◌ {A = ℕ} 2 2)
unique_get-out_of_range_example = unique_get-out_of_range pair_array refl (omega arith) 2

unique_update-get_example : Returns (unique_update pair_array (some 9) 5) λ r.
    (unique_get pair_array 5 ≡ ok r.0)
    × ((q : ℕ)
        → q ≢ 2
        → unique_get r.1 q ≡ (if 5 % 2 == q % 2 then ok (some 9) else unique_get pair_array q))
unique_update-get_example = unique_update-get pair_array refl (omega arith) (some 9) 5 (λ e. cc)
