-- ===== src/Cache/Views.antt =====
-- src/cache.rs: what a reader of the store sees.
use jwc_lang.Cache.{
  Entry, Store, is_live, checked_add, make_room, set_with_ttl, ttl_of, set, get, get_found, del,
}
use jwc_lang.Prelude.Assoc
use jwc_lang.Prelude.Assoc.{
  Assoc, contains_key, is_some, lookup, retain, lookup-insert, lookup-remove,
}
use jwc_lang.Prelude.{
  ℕ, ◌+◌, ◌*◌, ◌≤◌, ◌<◌, not, ◌&&◌, Option, none, some, [], ◌∷◌, String, ◌≡◌, ◌≢◌, refl, ap, ◌∙◌,
  arith, leb, ltb, length, if◌then◌else◌, lt→leb, eq_refl, eq_iff, str_eq, Bool-cases, inl, inr,
}

abbrev pub live : ℕ → Option Entry → Option String
live now none = none
live now (some e) = if is_live now e then some e.value else none

-- the value that a key has at a time
abbrev pub view : ℕ → Store → String → Option String
view now s k = live now (lookup k s.entries)

get_found-view :
    (now : ℕ) (key : String) (o : Option Entry) (s : Store)
    → o ≡ lookup key s.entries
    → ((get_found now key o s).0 ≡ live now o)
      × ((t : ℕ) (j : String) → now ≤ t → view t (get_found now key o s).1 j ≡ view t s j)
unfolding get_found is_live
get_found-view now key none s e = (refl, λ t j le. refl)
get_found-view now key (some x) s e =
    (ground arith, λ t j le. ground (arith, lookup-remove key j s.entries, eq_iff key j))

-- A read returns the live value of its key, and changes nothing that a later read can see.
pub get-view :
    (now : ℕ) (key : String) (s : Store)
    → ((get now key s).0 ≡ view now s key)
      × ((t : ℕ) (j : String) → now ≤ t → view t (get now key s).1 j ≡ view t s j)
unfolding get
get-view now key s = get_found-view now key (lookup key s.entries) s refl

-- A deletion answers whether the key was there, and takes it away alone.
pub del-view :
    (key : String) (s : Store) (t : ℕ) (j : String)
    → ((del key s).0 ≡ (if contains_key key s.entries then 1 else 0))
      × (view t (del key s).1 j ≡ (if str_eq key j then none else view t s j))
unfolding del
del-view key s t j = (refl, ground (arith, lookup-remove key j s.entries))

-- What a write shows of its own key at `t`: without a time to live, or with an end that the platform
-- cannot represent, the value for ever, else the value before the end.
abbrev pub written : ℕ → ℕ → ℕ → String → ℕ → Option String
written last begun ttl_secs value t =
    if ltb 0 ttl_secs && leb (begun + ttl_secs * 1000000000) last
    then (if ltb t (begun + ttl_secs * 1000000000) then some value else none)
    else some value

abbrev entry_of : ℕ → ℕ → ℕ → String → ℕ → Entry
entry_of last begun ttl_secs value seq = record {
  value = value;
  expires_at = elim (ttl_of last 0 ttl_secs) [ none ↦ none | some d ↦ checked_add last begun d ];
  seq = seq;
}

live-entry_of :
    (last begun ttl_secs : ℕ) (value : String) (seq t : ℕ)
    → live t (some (entry_of last begun ttl_secs value seq)) ≡ written last begun ttl_secs value t
unfolding is_live checked_add
live-entry_of last begun ttl_secs value seq t = ground arith

lookup-insert_self :
    (k : String) (e : Entry) (m : Assoc Entry) → lookup k (Assoc.insert k e m) ≡ some e
lookup-insert_self k e m = rw (lookup-insert, eq_refl)

-- A write is seen by the readers of its key exactly until its time to live is over.
pub set-view_self :
    (last most begun now ttl_secs : ℕ) (key value : String) (s : Store) (t : ℕ)
    → view t (set last most begun now key value ttl_secs s) key
      ≡ written last begun ttl_secs value t
unfolding set set_with_ttl
set-view_self last most begun now ttl_secs key value s t =
    ap (live t) (lookup-insert_self key (entry_of last begun ttl_secs value s.seq) _)
    ∙ live-entry_of last begun ttl_secs value s.seq t

-- The keys of a map are distinct.
abbrev pub IsDistinct : Assoc Entry → Type 0
IsDistinct [] = Unit
IsDistinct ((k, e) ∷ m) = (lookup k m ≡ none) × IsDistinct m

lookup_cong : (k j : String) (m : Assoc Entry) → k ≡ j → lookup k m ≡ lookup j m
lookup_cong k j m e = rw e

lookup-retain :
    (now : ℕ) (t : ℕ) (j : String) (m : Assoc Entry)
    → IsDistinct m
    → now ≤ t
    → live t (lookup j (retain (is_live now) m)) ≡ live t (lookup j m)
unfolding lookup retain is_live
lookup-retain now t j [] d le = refl
lookup-retain now t j ((k, e) ∷ m) d le =
    ground (arith, lookup-retain now t j m d.1 le, d.0, eq_iff k j, lookup_cong k j m)

ne_lookup : {A : Type 0} (k j : String) (a b : A) → k ≢ j → (if str_eq k j then a else b) ≡ b
ne_lookup k j a b ne = ground (arith, eq_iff k j)

-- In a store with distinct keys a write does not change what is seen of another key from then on,
-- unless the store is full of live keys.
pub set-view_other :
    (last most begun now ttl_secs : ℕ) (key value : String) (s : Store) (t : ℕ) (j : String)
    → key ≢ j
    → IsDistinct s.entries
    → now ≤ t
    → length (retain (is_live now) s.entries) < most
    → view t (set last most begun now key value ttl_secs s) j ≡ view t s j
unfolding set set_with_ttl make_room
set-view_other last most begun now ttl_secs key value s t j ne d le room =
    ap (live t) (lookup-insert key j _ _ ∙ ne_lookup key j _ _ ne)
    ∙ elim (Bool-cases (leb most (length s.entries) && not (contains_key key s.entries))) [
      | inl full ↦ rw (full, lt→leb most _ room) (lookup-retain now t j s.entries d le)
      | inr easy ↦ rw easy
    ]
