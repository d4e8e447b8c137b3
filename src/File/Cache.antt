-- ===== src/File/Cache.antt =====
-- `FileCache` of src/bin/server/file.rs.
use rs1541fs.Prelude.{
  ℕ, ◌-◌, ◌≡◌, Bool, true, false, List, [], ◌++◌, Option, none, some, arith, ltb, leb, length, ◌==◌,
  nat_eq, if◌then◌else◌,
}
use rs1541fs.Error.{Duration}

pub record FileCache : Type 0 where
  pub contents : List ℕ
  pub is_complete : Bool
  pub cache_start : ℕ
  pub cache_complete : Option ℕ
  pub last_device_read : ℕ

-- `FileCache::new`
unfoldable pub new : ℕ → FileCache
new now = record {
  contents = [];
  is_complete = false;
  cache_start = now;
  cache_complete = none;
  last_device_read = now;
}

-- `FileCache::cache_complete_time`
abbrev pub cache_complete_time : FileCache → Option ℕ
cache_complete_time c = c.cache_complete

-- `FileCache::is_fully_cached`
abbrev pub is_fully_cached : FileCache → Bool
is_fully_cached c = c.is_complete

-- `FileCache::add_chunk`
unfoldable pub add_chunk : ℕ → FileCache → List ℕ → Bool → FileCache
add_chunk now c chunk is_final_chunk = record {
  contents = c.contents ++ chunk;
  is_complete = is_final_chunk;
  cache_start = c.cache_start;
  cache_complete = if is_final_chunk then some now else c.cache_complete;
  last_device_read = now;
}

-- `FileCache::len`, `FileCache::get_data` and `FileCache::is_empty`.
abbrev pub len : FileCache → ℕ
len c = length c.contents

abbrev pub get_data : FileCache → List ℕ
get_data c = c.contents

abbrev pub is_empty : FileCache → Bool
is_empty c = len c == 0

-- `FileCache::set_data_complete`
unfoldable pub set_data_complete : ℕ → FileCache → List ℕ → FileCache
unfolding add_chunk
set_data_complete now c contents = add_chunk now (record c { contents = [] }) contents true

-- `FileCache::get_data_complete_and_fresh`; `duration_since` fails if the time lies ahead.
unfoldable pub get_data_complete_and_fresh : ℕ → FileCache → Duration → Option (List ℕ)
get_data_complete_and_fresh now c cache_duration =
    if c.is_complete
    then elim c.cache_complete [
      | none ↦ none
      | some cache_time ↦
          if leb cache_time now
          then if ltb (now - cache_time) cache_duration then some c.contents else none
          else none
    ]
    else none

-- What a complete read left in the cache is served, whole and unchanged, exactly while the clock is
-- not behind the read and less than the cache duration has passed; before the read nothing is.
pub get_data-set_data_complete :
    (now later : ℕ) (c : FileCache) (contents : List ℕ) (cache_duration : Duration)
    → (get_data_complete_and_fresh later (set_data_complete now c contents) cache_duration ≡ (
        if leb now later
        then if ltb (later - now) cache_duration then some contents else none
        else none))
      × (get_data_complete_and_fresh later (new now) cache_duration ≡ none)
unfolding get_data_complete_and_fresh set_data_complete new
get_data-set_data_complete now later c contents cache_duration = ground arith
