-- ===== src/Cache/Tests.antt =====
-- The tests of src/cache.rs, on the model, and the theorems at concrete calls.
use jwc_lang.Cache.Metrics.{metrics_text}
use jwc_lang.Cache.Calls.{Call, set_call, perform_all, IsSound, perform_all-IsSound}
use jwc_lang.Cache.Spec.{Remembered, nothing_written, recall, remember_all, get_refines_recall}
use jwc_lang.Cache.Views.{view, written, get-view, set-view_self, set-view_other}
use jwc_lang.Cache.{
  Store, is_live, oldest_from, oldest, evict, make_room, set_with_ttl, set, get, get_found, len,
}
use jwc_lang.Prelude.Assoc.{lookup, remove, retain, insert}
use jwc_lang.Prelude.{ℕ, ◌≤◌, none, some, List, [], ◌∷◌, String, ◌≡◌, ◌≢◌, refl, arith, eq_iff}

abbrev empty_store : Store
empty_store = record { entries = []; seq = 0; evicted = 0; hits = 0; misses = 0 }

-- A cap of two: the third key evicts the oldest write.
abbrev three_writes : List Call
three_writes = set_call 0 0 "a" "1" 0 ∷ set_call 1 1 "b" "2" 0 ∷ set_call 2 2 "c" "3" 0 ∷ []

the_oldest_write_goes :
    (view 3 (perform_all 1000 2 three_writes empty_store) "a" ≡ none)
    × (view 3 (perform_all 1000 2 three_writes empty_store) "b" ≡ some "2")
    × ((perform_all 1000 2 three_writes empty_store).evicted ≡ 1)
unfolding perform_all set set_with_ttl make_room evict oldest oldest_from is_live lookup remove
    retain insert
the_oldest_write_goes = (refl, refl, refl)

perform_all-IsSound_example : IsSound 2 (perform_all 1000 2 three_writes empty_store)
unfolding len
perform_all-IsSound_example =
    perform_all-IsSound 1000 2 three_writes empty_store (omega arith)
      (record { distinct = tt; bounded = omega arith })

abbrev one_write : Store
one_write = set 9000000000 2 0 0 "a" "1" 5 empty_store

get-view_example :
    ((get 1 "a" one_write).0 ≡ view 1 one_write "a")
    × ((t : ℕ) (j : String) → 1 ≤ t → view t (get 1 "a" one_write).1 j ≡ view t one_write j)
get-view_example = get-view 1 "a" one_write

set-view_self_example : view 4999999999 one_write "a" ≡ written 9000000000 0 5 "1" 4999999999
set-view_self_example = set-view_self 9000000000 2 0 0 5 "a" "1" empty_store 4999999999

a_not_b : ◌≢◌ {A = String} "b" "a"
a_not_b = ground (arith, eq_iff "b" "a")

abbrev plain_write : Store
plain_write = record {
  entries = ("a", record { value = "1"; expires_at = none; seq = 0 }) ∷ [];
  seq = 1;
  evicted = 0;
  hits = 0;
  misses = 0;
}

set-view_other_example : view 7 (set 1000 2 1 1 "b" "2" 0 plain_write) "a" ≡ view 7 plain_write "a"
unfolding retain is_live lookup
set-view_other_example =
    set-view_other 1000 2 1 1 0 "b" "2" plain_write 7 "a" a_not_b (refl, tt) (omega arith)
      (omega arith)

unused : metrics_text empty_store ≡ []
unfolding metrics_text
unused = refl

b_read : (get 3 "b" (perform_all 1000 2 three_writes empty_store)).0 ≡ some "2"
unfolding perform_all set set_with_ttl make_room evict oldest oldest_from is_live lookup remove
    retain insert get get_found
b_read = refl

nothing-Remembered : Remembered [] nothing_written
unfolding lookup
nothing-Remembered k e h = absurd cc

get_refines_recall_example :
    recall 3 "b" (remember_all 1000 three_writes nothing_written) ≡ some "2"
unfolding len
get_refines_recall_example =
    get_refines_recall 1000 2 3 three_writes empty_store nothing_written "b" "2" (omega arith)
      (record { distinct = tt; bounded = omega arith }) nothing-Remembered b_read
