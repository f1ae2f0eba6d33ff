-- ===== src/Cache/Calls.antt =====
-- src/cache.rs: any calls, in any order and at any times.
use jwc_lang.Cache.Bounded.{set-bounded}
use jwc_lang.Cache.Views.{IsDistinct}
use jwc_lang.Cache.{
  Entry, Store, is_live, evict, make_room, set_with_ttl, set, get, get_found, del, clear, len,
}
use jwc_lang.Prelude.Assoc.{
  Assoc, contains_key, lookup, remove, retain, insert, lookup-remove, length-remove-le,
}
use jwc_lang.Prelude.{
  ℕ, ◌≤◌, ◌<◌, Bool, not, ◌&&◌, Option, none, some, List, [], ◌∷◌, String, ◌≡◌, refl, arith, leb,
  length, str_eq, eq_refl, if_rule,
}

pub data Call : Type 0 where
  set_call : ℕ → ℕ → String → String → ℕ → Call
  get_call : ℕ → String → Call
  del_call : String → Call
  clear_call : Call

module _ (last most : ℕ) where
  unfoldable pub perform : Call → Store → Store
  perform (set_call begun now key value ttl_secs) s = set last most begun now key value ttl_secs s
  perform (get_call now key) s = (get now key s).1
  perform (del_call key) s = (del key s).1
  perform clear_call s = clear s

  unfoldable pub perform_all : List Call → Store → Store
  unfolding perform
  perform_all [] s = s
  perform_all (c ∷ cs) s = perform_all cs (perform c s)

-- Keys occur once, and there are no more entries than the cap allows.
pub record IsSound (most : ℕ) (s : Store) : Type 0 where
  pub distinct : IsDistinct s.entries
  pub bounded : len s ≤ most

remove-none : (k j : String) (m : Assoc Entry) → lookup j m ≡ none → lookup j (remove k m) ≡ none
remove-none k j m h = ground (arith, lookup-remove k j m)

remove-IsDistinct : (k : String) (m : Assoc Entry) → IsDistinct m → IsDistinct (remove k m)
unfolding remove
remove-IsDistinct k [] d = tt
remove-IsDistinct k ((j, e) ∷ m) d =
    if_rule IsDistinct (str_eq j k) _ ((j, e) ∷ remove k m) (λ _. remove-IsDistinct k m d.1)
      (λ _. (remove-none k j m d.0, remove-IsDistinct k m d.1))

retain-none :
    (p : Entry → Bool) (j : String) (m : Assoc Entry)
    → lookup j m ≡ none
    → lookup j (retain p m) ≡ none
unfolding lookup retain
retain-none p j [] h = refl
retain-none p j ((k, e) ∷ m) h = ground (arith, retain-none p j m)

pub retain-IsDistinct :
    (p : Entry → Bool) (m : Assoc Entry) → IsDistinct m → IsDistinct (retain p m)
unfolding retain
retain-IsDistinct p [] d = tt
retain-IsDistinct p ((j, e) ∷ m) d =
    if_rule IsDistinct (p e) ((j, e) ∷ retain p m) _
      (λ _. (retain-none p j m d.0, retain-IsDistinct p m d.1)) (λ _. retain-IsDistinct p m d.1)

insert-IsDistinct :
    (k : String) (e : Entry) (m : Assoc Entry) → IsDistinct m → IsDistinct (insert k e m)
unfolding insert
insert-IsDistinct k e m d = (rw (lookup-remove, eq_refl), remove-IsDistinct k m d)

evict-IsDistinct :
    (o : Option String) (s : Store) → IsDistinct s.entries → IsDistinct (evict o s).entries
unfolding evict
evict-IsDistinct none s d = d
evict-IsDistinct (some k) s d = remove-IsDistinct k s.entries d

make_room-IsDistinct :
    (most now : ℕ) (s : Store) → IsDistinct s.entries → IsDistinct (make_room most now s).entries
unfolding make_room
make_room-IsDistinct most now s d =
    let kept = retain-IsDistinct (is_live now) s.entries d in
    if_rule (λ (t : Store). IsDistinct t.entries)
      (leb most (length (retain (is_live now) s.entries))) _ _ (λ _. evict-IsDistinct _ _ kept)
      (λ _. kept)

get_found-IsSound :
    (most now : ℕ) (key : String) (o : Option Entry) (s : Store)
    → IsSound most s
    → IsSound most (get_found now key o s).1
unfolding get_found len
get_found-IsSound most now key none s h = record { distinct = h.distinct; bounded = h.bounded }
get_found-IsSound most now key (some e) s h =
    if_rule (λ (r : Option String × Store). IsSound most r.1) (is_live now e) _ _
      (λ _. record { distinct = h.distinct; bounded = h.bounded })
      (λ _. record {
        distinct = remove-IsDistinct key s.entries h.distinct;
        bounded = omega (arith, length-remove-le key s.entries, h.bounded);
      })

pub set-IsDistinct :
    (last most begun now : ℕ) (key value : String) (ttl_secs : ℕ) (s : Store)
    → IsDistinct s.entries
    → IsDistinct (set last most begun now key value ttl_secs s).entries
unfolding set set_with_ttl
set-IsDistinct last most begun now key value ttl_secs s d = insert-IsDistinct key _ _ (
    if_rule (λ (t : Store). IsDistinct t.entries)
      (leb most (length s.entries) && not (contains_key key s.entries)) _ _
      (λ _. make_room-IsDistinct most now _ d) (λ _. d))

pub perform-IsSound :
    (last most : ℕ) (c : Call) (s : Store)
    → 0 < most
    → IsSound most s
    → IsSound most (perform last most c s)
unfolding perform get del clear len
perform-IsSound last most (set_call begun now key value ttl_secs) s pos h = record {
  distinct = set-IsDistinct last most begun now key value ttl_secs s h.distinct;
  bounded = set-bounded last most begun now key value ttl_secs s pos h.bounded;
}
perform-IsSound last most (get_call now key) s pos h = get_found-IsSound most now key _ s h
perform-IsSound last most (del_call key) s pos h = record {
  distinct = remove-IsDistinct key s.entries h.distinct;
  bounded = omega (arith, length-remove-le key s.entries, h.bounded);
}
perform-IsSound last most clear_call s pos h = record { distinct = tt; bounded = omega arith }

-- Whatever the calls, in whatever order and at whatever times, the entries stay within a cap of one or
-- more and their keys distinct, if they were at the start.
pub perform_all-IsSound :
    (last most : ℕ) (calls : List Call) (s : Store)
    → 0 < most
    → IsSound most s
    → IsSound most (perform_all last most calls s)
unfolding perform_all
perform_all-IsSound last most [] s pos h = h
perform_all-IsSound last most (c ∷ cs) s pos h =
    perform_all-IsSound last most cs (perform last most c s) pos
      (perform-IsSound last most c s pos h)
