-- ===== src/Cache/Metrics.antt =====
-- src/cache.rs: the lines of `/metrics`.
use jwc_lang.Cache.{Store, len}
use jwc_lang.Naming.Generated.{decimal}
use jwc_lang.Prelude.{◌&&◌, [], ◌++◌, ◌==◌, if◌then◌else◌, Bytes, codes}

unfoldable pub metrics_text : Store → Bytes
unfolding len decimal
metrics_text s =
    if s.hits == 0 && s.misses == 0 && s.evicted == 0 && len s == 0
    then []
    else codes "# HELP jwc_cache_entries Live entries in the process-local cache.\n"
      ++ codes "# TYPE jwc_cache_entries gauge\n"
      ++ codes "jwc_cache_entries "
      ++ decimal (len s)
      ++ codes "\n"
      ++ codes "# HELP jwc_cache_hits_total Reads that found a live entry.\n"
      ++ codes "# TYPE jwc_cache_hits_total counter\n"
      ++ codes "jwc_cache_hits_total "
      ++ decimal s.hits
      ++ codes "\n"
      ++ codes "# HELP jwc_cache_misses_total Reads that found nothing, expired included.\n"
      ++ codes "# TYPE jwc_cache_misses_total counter\n"
      ++ codes "jwc_cache_misses_total "
      ++ decimal s.misses
      ++ codes "\n"
      ++ codes
          "# HELP jwc_cache_evicted_total Entries dropped to stay under JWC_CACHE_MAX_ENTRIES.\n"
      ++ codes "# TYPE jwc_cache_evicted_total counter\n"
      ++ codes "jwc_cache_evicted_total "
      ++ decimal s.evicted
      ++ codes "\n"
