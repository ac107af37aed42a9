-- ===== src/Store/Clean.antt =====
-- `cleanExpired` of core/store/store.go, which the timer calls for each loaded database.
use torii_db.Base.{ℤ, Dict, [], ◌∷◌, if◌then◌else◌}
use torii_db.Store.Entry.{Entry, is_expired}
use torii_db.Store.Db.{Db}

unfoldable pub live_entries : ℤ → Dict Entry → Dict Entry
live_entries now [] = []
live_entries now ((k, e) ∷ m) =
    let rest = live_entries now m in if is_expired e now then rest else (k, e) ∷ rest

unfoldable pub clean_expired : ℤ → Db → Db
clean_expired now d = record d { entries = live_entries now d.entries }
