-- ===== src/Storage/Redis/Ends.antt =====
-- storage/redis/redis.go: the loops over pages end with the scans.
use titip.Prelude.{ℕ, suc, ◌<◌, ◌≡◌, Bool, Option, List}
use titip.Text.{Text}
use titip.Storage.Redis.{Command, page, Server}
use titip.Storage.Redis.Pages.{Scanned, scan_pages}

module _ {S : Type 0} (server : Server S) (nil_ends : Bool) (ask : ℕ → Command)
    (batch : S → List Text → S × Option ℕ) where
  -- Some pages are left at each cursor, and each page that has a next one leaves fewer, whatever is done
  -- with its elements.
  abbrev pub PagesLeft : (S → ℕ → ℕ) → Type 0
  PagesLeft left =
      (s t : S) (c d : ℕ) (keys : List Text)
      → server s (ask c) ≡ (t, page (suc d) keys)
      → left (batch t keys).0 (suc d) < left s c

  abbrev loop : ℕ → S → ℕ → S × Scanned
  loop n = scan_pages server nil_ends ask batch n
