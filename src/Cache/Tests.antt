-- ===== src/Cache/Tests.antt =====
-- Runs of the table.
use win16sync.Prelude.{◌≡◌, refl, some, none, true, false, codes, text_eq}
use win16sync.Text.{copy_text}
use win16sync.Cache.{
  Cache, no_cache, lookup_loop, update_loop, forget_loop, lookup_cached_crc, remember_cached_crc,
  forget_cached_crc,
}
use win16sync.Prelude.{Text, if◌then◌else◌, arith}
use win16sync.Cache.Find.{find}
use win16sync.Cache.Invariant.{IsValid, no_cache-IsValid, forget_cached_crc-IsValid}
use win16sync.Cache.Remember.{Remembers, known, remember_cached_crc-Remembers}

abbrev one : Cache
one = remember_cached_crc true 1000 no_cache (codes "A.TXT") 12 7 99

fresh : lookup_cached_crc true 2000 one (codes "A.TXT") 12 7 ≡ some 99
unfolding lookup_cached_crc lookup_loop remember_cached_crc update_loop copy_text text_eq
fresh = refl

-- After five minutes, across a wrap of the tick counter.
stale :
    lookup_cached_crc true 295704
      (remember_cached_crc true 4294963000 one (codes "A.TXT") 12 7 99)
      (codes "A.TXT")
      12
      7
    ≡ none
unfolding lookup_cached_crc lookup_loop remember_cached_crc update_loop copy_text text_eq
stale = refl

forgotten :
    lookup_cached_crc false 2000 (forget_cached_crc one (codes "A.TXT")) (codes "A.TXT") 12 7 ≡ none
unfolding lookup_cached_crc lookup_loop remember_cached_crc update_loop forget_cached_crc
    forget_loop copy_text text_eq
forgotten = refl

remember_cached_crc-Remembers_example :
    Remembers true no_cache (codes "A.TXT") (known 1000 (codes "A.TXT") 12 7 99) one
remember_cached_crc-Remembers_example =
    remember_cached_crc-Remembers true 1000 (codes "A.TXT") 12 7 99 no_cache-IsValid refl
      (omega arith)

one-IsValid : IsValid one
one-IsValid = remember_cached_crc-Remembers_example.0

forget_cached_crc-IsValid_example :
    IsValid (forget_cached_crc one (codes "A.TXT"))
    × ((q : Text)
        → find q (forget_cached_crc one (codes "A.TXT")).items
          ≡ (if text_eq (codes "A.TXT") q then none else find q one.items))
forget_cached_crc-IsValid_example = forget_cached_crc-IsValid (codes "A.TXT") one-IsValid refl
