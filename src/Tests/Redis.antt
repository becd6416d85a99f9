-- ===== src/Tests/Redis.antt =====
-- A server that keeps keys alone, and gives every key that a pattern matches on one page.
use titip.Prelude.{Bool, true, false, List, [], ◌∷◌, if◌then◌else◌}
use titip.Prelude.Int.{pos}
use titip.Text.{Text, codes}
use titip.Storage.Memory.{holds_key}
use titip.Storage.Glob.{match_glob}
use titip.Storage.Redis.{
  hgetall, hkeys, get_value, soft_purge_script, hget, hdel, hset, hexpire, set_ex, expire_nx,
  expire_gt, unlink, hscan, scan, Reply, nil, failure, bytes, fields, strings, integer, page,
  Server,
}

abbrev without : List Text → List Text → List Text
without ks [] = []
without ks (j ∷ js) = let rest = without ks js in if holds_key j ks then rest else j ∷ rest

abbrev matching : Text → List Text → List Text
matching p [] = []
matching p (j ∷ js) = let rest = matching p js in if match_glob p j then j ∷ rest else rest

abbrev fields_reply : Bool → Reply
fields_reply true = strings (codes "_index" ∷ [])
fields_reply false = strings []

abbrev keys_alone : Server (List Text)
keys_alone s c = elim c [
  | hkeys k ↦ (s, fields_reply (holds_key k s))
  | unlink ks ↦ (without ks s, integer (pos 0))
  | scan i p ↦ (s, page 0 (matching p s))
  | hgetall k ↦ (s, nil)
  | get_value k ↦ (s, nil)
  | soft_purge_script k ↦ (s, nil)
  | hget k f ↦ (s, nil)
  | hdel k f ↦ (s, nil)
  | hset k d ↦ (s, nil)
  | hexpire k n f ↦ (s, nil)
  | set_ex k v n ↦ (s, nil)
  | expire_nx k n ↦ (s, nil)
  | expire_gt k n ↦ (s, nil)
  | hscan k i ↦ (s, nil)
]

abbrev has : List Text → Text → Bool
has s k = holds_key k s

abbrev keys_in : Reply → List Text
keys_in r = elim r [
  | nil ↦ []
  | failure ↦ []
  | bytes t ↦ []
  | strings ts ↦ []
  | fields d ↦ []
  | integer n ↦ []
  | page c ks ↦ ks
]
