-- ===== src/Cache/Spec.antt =====
-- src/cache.rs: the store against a map that forgets nothing, in which each key has the value that
-- was written last and the time when it ends.
use jwc_lang.Cache.{
  Entry, Store, bump, is_live, checked_add, evict, oldest, make_room, set_with_ttl, ttl_of, set,
  get, get_found, del, clear,
}
use jwc_lang.Cache.Views.{IsDistinct}
use jwc_lang.Cache.Calls.{
  Call, set_call, get_call, del_call, clear_call, perform, perform_all, IsSound, perform-IsSound,
}
use jwc_lang.Prelude.Assoc.{
  Assoc, contains_key, lookup, retain, remove, lookup-insert, lookup-remove,
}
use jwc_lang.Prelude.{
  ℕ, ◌<◌, Bool, true, false, not, ◌&&◌, Option, none, some, List, [], ◌∷◌, String, ◌≡◌, refl, arith,
  leb, ltb, length, if◌then◌else◌, str_eq, eq_iff, Bool-cases, inl, inr,
}

-- the last value written for a key, and when it ends
abbrev pub Memory : Type 0
Memory = String → Option (String × Option ℕ)

abbrev pub nothing_written : Memory
nothing_written k = none

abbrev end_of : ℕ → ℕ → ℕ → Option ℕ
end_of last begun ttl_secs = elim (ttl_of last 0 ttl_secs) [
  | none ↦ none
  | some d ↦ checked_add last begun d
]

unfoldable pub remember : ℕ → Call → Memory → Memory
remember last (set_call begun now key value ttl_secs) m j =
    if str_eq key j then some (value, end_of last begun ttl_secs) else m j
remember last (get_call now key) m j = m j
remember last (del_call key) m j = if str_eq key j then none else m j
remember last clear_call m j = none

unfoldable pub remember_all : ℕ → List Call → Memory → Memory
unfolding remember
remember_all last [] m = m
remember_all last (c ∷ cs) m = remember_all last cs (remember last c m)

-- what a reader of the memory gets
unfoldable pub recall : ℕ → String → Memory → Option String
recall now key m = elim (m key) [
  | none ↦ none
  | some x ↦ if elim x.1 [ none ↦ true | some d ↦ ltb now d ] then some x.0 else none
]

-- Each entry of the store is what the memory has of its key.
abbrev pub Remembered : Assoc Entry → Memory → Type 0
Remembered es m =
    (k : String) (e : Entry) → lookup k es ≡ some e → m k ≡ some (e.value, e.expires_at)

lookup_cong : (k j : String) (m : Assoc Entry) → k ≡ j → lookup k m ≡ lookup j m
lookup_cong k j m e = rw e

lookup-retain_inv :
    (p : Entry → Bool) (es : Assoc Entry)
    → IsDistinct es
    → (k : String) (e : Entry) → lookup k (retain p es) ≡ some e
    → lookup k es ≡ some e
unfolding lookup retain
lookup-retain_inv p [] d k e h = h
lookup-retain_inv p ((j, x) ∷ es) d k e h =
    ground (arith, lookup-retain_inv p es d.1 k e, d.0, eq_iff j k, eq_iff k j, lookup_cong k j es)

lookup-remove_inv :
    (key : String) (es : Assoc Entry) (k : String) (e : Entry)
    → lookup k (remove key es) ≡ some e
    → (str_eq key k ≡ false) × (lookup k es ≡ some e)
lookup-remove_inv key es k e h = ground (arith, lookup-remove key k es)

lookup-evict :
    (o : Option String) (s : Store) (k : String) (e : Entry)
    → lookup k (evict o s).entries ≡ some e
    → lookup k s.entries ≡ some e
unfolding evict
lookup-evict none s k e h = h
lookup-evict (some key) s k e h = (lookup-remove_inv key s.entries k e h).1

lookup-make_room :
    (most now : ℕ) (s : Store)
    → IsDistinct s.entries
    → (k : String) (e : Entry) → lookup k (make_room most now s).entries ≡ some e
    → lookup k s.entries ≡ some e
unfolding make_room
lookup-make_room most now s d k e h =
    elim (Bool-cases (leb most (length (retain (is_live now) s.entries)))) [
      | inl full ↦
          lookup-retain_inv (is_live now) s.entries d k e
            (lookup-evict (oldest (retain (is_live now) s.entries)) _ k e (rw full at h))
      | inr easy ↦ lookup-retain_inv (is_live now) s.entries d k e (rw easy at h)
    ]

set-Remembered :
    (last most begun now ttl_secs : ℕ) (key value : String) (s : Store) (m : Memory)
    → IsDistinct s.entries
    → Remembered s.entries m
    → Remembered
        (set last most begun now key value ttl_secs s).entries
        (remember last (set_call begun now key value ttl_secs) m)
unfolding set set_with_ttl remember
set-Remembered last most begun now ttl_secs key value s m d r k e h =
    elim (Bool-cases (leb most (length s.entries) && not (contains_key key s.entries))) [
      | inl full ↦
          let h' = rw (full, lookup-insert) at h in
          ground (arith, lookup-make_room most now (record s { seq = bump s.seq }) d k e, r k e)
      | inr easy ↦ let h' = rw (easy, lookup-insert) at h in ground (arith, r k e)
    ]

get_found-Remembered :
    (now : ℕ) (key : String) (o : Option Entry) (s : Store) (m : Memory)
    → Remembered s.entries m
    → Remembered (get_found now key o s).1.entries m
unfolding get_found
get_found-Remembered now key none s m r = r
get_found-Remembered now key (some x) s m r = λ k e h. elim (Bool-cases (is_live now x)) [
  | inl fresh ↦ r k e (rw fresh at h)
  | inr over ↦ r k e (lookup-remove_inv key s.entries k e (rw over at h)).1
]

perform-Remembered :
    (last most : ℕ) (c : Call) (s : Store) (m : Memory)
    → IsDistinct s.entries
    → Remembered s.entries m
    → Remembered (perform last most c s).entries (remember last c m)
unfolding perform remember get del clear lookup
perform-Remembered last most (set_call begun now key value ttl_secs) s m d r =
    set-Remembered last most begun now ttl_secs key value s m d r
perform-Remembered last most (get_call now key) s m d r =
    get_found-Remembered now key (lookup key s.entries) s m r
perform-Remembered last most (del_call key) s m d r = λ k e h.
    let (other, found) = lookup-remove_inv key s.entries k e h in ground (arith, r k e found)
perform-Remembered last most clear_call s m d r = λ k e h. absurd cc

perform_all-Remembered :
    (last most : ℕ) (calls : List Call) (s : Store) (m : Memory)
    → 0 < most
    → IsSound most s
    → Remembered s.entries m
    → Remembered (perform_all last most calls s).entries (remember_all last calls m)
unfolding perform_all remember_all
perform_all-Remembered last most [] s m pos sound r = r
perform_all-Remembered last most (c ∷ cs) s m pos sound r =
    perform_all-Remembered last most cs (perform last most c s) (remember last c m) pos
      (perform-IsSound last most c s pos sound)
      (perform-Remembered last most c s m sound.distinct r)

recall-get_found :
    (now : ℕ) (key v : String) (o : Option Entry) (s : Store) (m : Memory)
    → o ≡ lookup key s.entries
    → Remembered s.entries m
    → (get_found now key o s).0 ≡ some v
    → recall now key m ≡ some v
unfolding get_found recall is_live
recall-get_found now key v none s m e r h = absurd cc
recall-get_found now key v (some x) s m e r h =
    let known : m key ≡ some (x.value, x.expires_at) = r key x (cc) in
    elim (Bool-cases (is_live now x)) [
      | inl fresh ↦ rw (recall, known, fresh) (rw fresh at h)
      | inr over ↦ absurd (let h' = rw over at h in cc)
    ]

-- Whatever calls came before, in whatever order and at whatever times, a read that returns a value
-- returns the one that the memory of all the calls has: the value that was written last for the key,
-- not deleted since and not at its end. The store refines the memory: it may forget, to keep to its
-- cap of one or more, but it never returns another value. At the start the keys are distinct and
-- within the cap, and each entry is what the memory has of its key.
pub get_refines_recall :
    (last most now : ℕ) (calls : List Call) (s : Store) (m : Memory) (key v : String)
    → 0 < most
    → IsSound most s
    → Remembered s.entries m
    → (get now key (perform_all last most calls s)).0 ≡ some v
    → recall now key (remember_all last calls m) ≡ some v
unfolding get
get_refines_recall last most now calls s m key v pos sound r h =
    recall-get_found now key v (lookup key (perform_all last most calls s).entries)
      (perform_all last most calls s) (remember_all last calls m) refl
      (perform_all-Remembered last most calls s m pos sound r) h
