-- ===== src/Mount/Responses.antt =====
-- `process_bg_response` and `handle_bg_responses` of src/bin/server/mount.rs. A panic poisons
-- nothing here: `parking_lot` locks do not poison, the thread ends.
use rs1541fs.Prelude.{ℕ, String, inl, inr, false, List, [], ◌∷◌, Option, none, some, if◌then◌else◌}
use rs1541fs.Error.{Result, ok, ◌>>=◌}
use rs1541fs.Rs1541.{CbmStatus}
use rs1541fs.Bg.{OpResponseType, OpResponse}
use rs1541fs.File.Cache
use rs1541fs.File.Cache.{FileCache, set_data_complete}
use rs1541fs.File.Entry.{FileEntry}
use rs1541fs.Mount.State.{Mount, set_dir_outstanding}
use rs1541fs.Mount.Lookup.{change_file}
use rs1541fs.Mount.Requests.{set_cache}
use rs1541fs.Mount.Listings.{process_directory_listings, update_last_status}

abbrev pub or_new : ℕ → Option FileCache → FileCache
or_new now none = Cache.new now
or_new now (some c) = c

-- What a response for a file leaves in its cache.
unfoldable pub cache_response : ℕ → CbmStatus → List ℕ → FileEntry → FileEntry
unfolding set_data_complete
cache_response now status contents f =
    if status.is_ok
    then set_cache (some (set_data_complete now (or_new now f.cache) contents)) f
    else set_cache none f

module _ (format_time : ℕ → String) where
  -- `Mount::process_bg_response`; a file that is not found is only logged.
  unfoldable pub process_response_type : ℕ → OpResponseType → Mount → Result Mount
  unfolding cache_response update_last_status process_directory_listings
  process_response_type now (OpResponseType.read_directory status listings) m =
      process_directory_listings now listings (set_dir_outstanding false m) >>= λ m'.
      ok (update_last_status format_time now status m')
  process_response_type now (OpResponseType.read_file _ path ino status contents) m =
      ok (change_file ino (cache_response now status contents) m)
  process_response_type now _ m = ok m

  unfoldable pub process_bg_response : ℕ → OpResponse → Mount → Result Mount
  unfolding process_response_type
  process_bg_response now response m = elim response.rsp [
    | inr e ↦ ok m
    | inl rsp ↦ process_response_type now rsp m
  ]

  -- `Mount::handle_bg_responses`: the responses that arrive, with the times at which they do, until
  -- the channel is closed.
  unfoldable pub handle_bg_responses : List (ℕ × OpResponse) → Mount → Result Mount
  unfolding process_bg_response
  handle_bg_responses [] m = ok m
  handle_bg_responses ((now, response) ∷ responses) m =
      process_bg_response now response m >>= λ m'. handle_bg_responses responses m'
