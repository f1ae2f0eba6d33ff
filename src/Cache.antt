-- ===== src/Cache.antt =====
-- src/cache.rs: the store behind `cache.*`. The `static`s are one record; each function is what runs
-- while it holds the lock. The clock is an argument, in nanoseconds.
pub mod Bounded
pub mod Views
pub mod Calls
pub mod Spec
pub mod Metrics
mod Tests
use jwc_lang.Prelude.Assoc
use jwc_lang.Prelude.Assoc.{Assoc, is_some, contains_key}
use jwc_lang.Prelude.{
  ℕ, ◌+◌, ◌*◌, ◌%◌, Bool, true, not, ◌&&◌, Option, none, some, List, [], ◌∷◌, String, ltb, leb,
  length, if◌then◌else◌,
}

pub record Entry : Type 0 where
  pub value : String
  pub expires_at : Option ℕ
  pub seq : ℕ

pub record Store : Type 0 where
  pub entries : Assoc Entry
  pub seq : ℕ
  pub evicted : ℕ
  pub hits : ℕ
  pub misses : ℕ

abbrev pub default_max_entries : ℕ
default_max_entries = 10000

abbrev pub u64_mod : ℕ
u64_mod = 18446744073709551616

-- `fetch_add(1, …)`
abbrev pub bump : ℕ → ℕ
bump n = (n + 1) % u64_mod

-- The variable `JWC_CACHE_MAX_ENTRIES` as it was read and parsed, if it was.
unfoldable pub max_entries : Option ℕ → ℕ
max_entries none = default_max_entries
max_entries (some n) = if ltb 0 n then n else default_max_entries

-- `d.is_none_or(|d| now < d)`
unfoldable pub is_live : ℕ → Entry → Bool
is_live now e = elim e.expires_at [ none ↦ true | some d ↦ ltb now d ]

-- the key of an entry with the least `seq`
unfoldable pub oldest_from : String → ℕ → Assoc Entry → String
oldest_from k n [] = k
oldest_from k n ((j, e) ∷ m) =
    let earlier = ltb e.seq n in
    oldest_from (if earlier then j else k) (if earlier then e.seq else n) m

unfoldable pub oldest : Assoc Entry → Option String
oldest [] = none
oldest ((k, e) ∷ m) = some (oldest_from k e.seq m)

-- Nothing had expired: the oldest write goes.
unfoldable pub evict : Option String → Store → Store
evict none s = s
evict (some k) s = record s { entries = Assoc.remove k s.entries; evicted = bump s.evicted }

-- a write of a new key at the cap
unfoldable pub make_room : ℕ → ℕ → Store → Store
make_room most now s =
    let swept = record s { entries = Assoc.retain (is_live now) s.entries } in
    if leb most (length swept.entries) then evict (oldest swept.entries) swept else swept

-- `Instant::checked_add`, up to the last instant that the platform can represent
unfoldable pub checked_add : ℕ → ℕ → ℕ → Option ℕ
checked_add last now d = if leb (now + d) last then some (now + d) else none

-- `begun` is the clock when the call begins, `now` when it looks for what has expired.
module _ (last most : ℕ) where
  unfoldable pub set_with_ttl : ℕ → ℕ → String → String → Option ℕ → Store → Store
  set_with_ttl begun now key value ttl s =
      let expires_at : Option ℕ = elim ttl [ none ↦ none | some d ↦ checked_add last begun d ] in
      let counted = record s { seq = bump s.seq } in
      let full = leb most (length s.entries) && not (contains_key key s.entries) in
      let roomy = if full then make_room most now counted else counted in
      let e : Entry = record { value = value; expires_at = expires_at; seq = s.seq } in
      record roomy { entries = Assoc.insert key e roomy.entries }

  abbrev pub ttl_of : ℕ → Option ℕ
  ttl_of ttl_secs = if ltb 0 ttl_secs then some (ttl_secs * 1000000000) else none

  unfoldable pub set : ℕ → ℕ → String → String → ℕ → Store → Store
  set begun now key value ttl_secs s = set_with_ttl begun now key value (ttl_of ttl_secs) s

-- an expired entry is dropped on the way past
unfoldable pub get_found : ℕ → String → Option Entry → Store → Option String × Store
get_found now key none s = (none, record s { misses = bump s.misses })
get_found now key (some e) s =
    if is_live now e
    then (some e.value, record s { hits = bump s.hits })
    else (none, record s { entries = Assoc.remove key s.entries; misses = bump s.misses })

unfoldable pub get : ℕ → String → Store → Option String × Store
get now key s = get_found now key (Assoc.lookup key s.entries) s

unfoldable pub del : String → Store → ℕ × Store
del key s =
    (if contains_key key s.entries then 1 else 0, record s { entries = Assoc.remove key s.entries })

unfoldable pub clear : Store → Store
clear s = record s { entries = [] }

unfoldable pub len : Store → ℕ
len s = length s.entries
