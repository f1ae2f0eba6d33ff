-- ===== src/Cache/Bounded.antt =====
-- src/cache.rs: the number of entries and the cap.
use jwc_lang.Cache.{
  Entry, Store, is_live, oldest_from, oldest, evict, make_room, set_with_ttl, len, set, bump,
}
use jwc_lang.Prelude.Assoc
use jwc_lang.Prelude.Assoc.{
  Assoc, contains_key, is_some, lookup, length-remove-le, length-retain-le, length-remove_found,
}
use jwc_lang.Prelude.{
  ℕ, ◌+◌, ◌≤◌, ◌<◌, true, false, not, ◌&&◌, some, [], ◌∷◌, String, ◌≡◌, refl, arith, leb, ltb,
  length, eq_refl, Bool-cases, inl, inr, leb→lt, leb→le,
}

contains-head : (j : String) (e : Entry) (m : Assoc Entry) → contains_key j ((j, e) ∷ m) ≡ true
unfolding lookup
contains-head j e m = rw eq_refl

contains-tail :
    (i j : String) (e : Entry) (m : Assoc Entry)
    → contains_key i m ≡ true
    → contains_key i ((j, e) ∷ m) ≡ true
unfolding lookup
contains-tail i j e m h = ground arith

-- the key found is a key that is there
oldest_from-found :
    (k : String) (n : ℕ) (m whole : Assoc Entry)
    → contains_key k whole ≡ true
    → ((j : String) → contains_key j m ≡ true → contains_key j whole ≡ true)
    → contains_key (oldest_from k n m) whole ≡ true
unfolding oldest_from
oldest_from-found k n [] whole h sub = h
oldest_from-found k n ((j, e) ∷ m) whole h sub = elim (Bool-cases (ltb e.seq n)) [
  | inl earlier ↦ rw earlier (
      oldest_from-found j e.seq m whole (sub j (contains-head j e m))
        (λ i c. sub i (contains-tail i j e m c)))
  | inr later ↦ rw later (oldest_from-found k n m whole h (λ i c. sub i (contains-tail i j e m c)))
]

oldest-found :
    (m : Assoc Entry)
    → 0 < length m
    → (k : String) × (oldest m ≡ some k) × (contains_key k m ≡ true)
unfolding oldest
oldest-found [] pos = absurd (omega arith)
oldest-found ((k, e) ∷ m) pos = (
  oldest_from k e.seq m,
  refl,
  oldest_from-found k e.seq m ((k, e) ∷ m) (contains-head k e m) (λ i c. contains-tail i k e m c),
)

-- Room is made for one entry more.
make_room-len :
    (most now : ℕ) (s : Store)
    → 0 < most
    → length s.entries ≤ most
    → length (make_room most now s).entries + 1 ≤ most
unfolding make_room evict
make_room-len most now s pos h =
    let swept = Assoc.retain (is_live now) s.entries in
    let le : length swept ≤ most = omega (arith, length-retain-le (is_live now) s.entries) in
    elim (Bool-cases (leb most (length swept))) [
      | inl full ↦
          let (k, e, found) = oldest-found swept (omega (arith, leb→le _ _ full)) in
          rw (full, e, evict) (omega (arith, length-remove_found k swept found))
      | inr room ↦ rw room (omega (arith, leb→lt _ _ room))
    ]

-- Writing one entry takes one place, or none where its key is there.
insert-len :
    (key : String) (e : Entry) (m : Assoc Entry) (most : ℕ)
    → length m ≤ most
    → (contains_key key m ≡ false → length m + 1 ≤ most)
    → length (Assoc.insert key e m) ≤ most
unfolding Assoc.insert
insert-len key e m most h room = elim (Bool-cases (contains_key key m)) [
  | inl old ↦ omega (arith, length-remove_found key m old)
  | inr new ↦ omega (arith, length-remove-le key m, room new)
]

-- Writes keep the number of entries within the cap, whatever was there and whenever they come.
pub set-bounded :
    (last most begun now : ℕ) (key value : String) (ttl_secs : ℕ) (s : Store)
    → 0 < most
    → len s ≤ most
    → len (set last most begun now key value ttl_secs s) ≤ most
unfolding set set_with_ttl len
set-bounded last most begun now key value ttl_secs s pos h =
    elim (Bool-cases (leb most (length s.entries) && not (contains_key key s.entries))) [
      | inl full ↦
          let room = make_room-len most now (record s { seq = bump s.seq }) pos h in
          rw full (insert-len key _ _ most (omega arith) (λ _. room))
      | inr easy ↦ rw easy (insert-len key _ s.entries most h (λ new. ground arith))
    ]
