-- ===== src/Caddy/Admin.antt =====
-- adapter/caddy/admin.go: the purge of all instances by the admin API. The decoder of JSON is a parameter. The
-- instances act on one state, since several may have one store.
pub mod Decision
use titip.Prelude.{
  ℕ, ◌+◌, Bool, true, false, not, ◌&&◌, ◌||◌, Option, none, some, List, [], ◌∷◌, ltb, ◌==◌,
  if◌then◌else◌, length,
}
use titip.Prelude.Int.{ℤ, pos}
use titip.Text.{Text, codes, has_prefix, ◌==ₜ◌}
use titip.Http.{is_empty}
use titip.Freshness.{add_64}
use titip.Key.{CacheKey}
use titip.Purge.{ParsedUrl}
use titip.Caddy.{is_given}
use titip.Purge.Run
use titip.Purge.Run.{Backend, Count, counted, unparsed, failed, purge_target, purge_tag}

-- `purgeAdminRequest`
pub record PurgeRequest : Type 0 where
  pub urls : List Text
  pub tags : List Text
  pub purge_everything : Bool
  pub soft : Option Bool

-- What is read of the request.
pub record AdminRequest : Type 0 where
  pub method : Text
  pub content_type : Text
  pub body : Text

pub data Target : Type 0 where
  urls_target tags_target everything_target : Target

-- An error with its status, or `adminPurgedInfo`.
pub data AdminReply : Type 0 where
  refused : ℕ → AdminReply
  purged : Target → ℤ → Bool → AdminReply

-- `Titip`, as a purge sees it
pub record Instance (S : Type 0) : Type 0 where
  pub store : Backend S
  pub cache_key : CacheKey

-- The count that `Purge` returns, also beside an error.
abbrev pub count_beside : Count → ℤ
count_beside (counted n) = n
count_beside unparsed = pos 0
count_beside (failed n) = n

abbrev pub one_if : Bool → ℕ
one_if true = 1
one_if false = 0

-- The targets that the request names, and the last of them.
abbrev pub targets : PurgeRequest → ℕ
targets r = one_if (is_given r.urls) + one_if (is_given r.tags) + one_if r.purge_everything

abbrev pub target_of : PurgeRequest → Target
target_of r =
    if r.purge_everything
    then everything_target
    else if is_given r.tags
    then tags_target
    else urls_target

-- `soft` where it is given, and otherwise `true`
abbrev pub soft_of : PurgeRequest → Bool
soft_of r = elim r.soft [ none ↦ true | some b ↦ b ]

abbrev pub asks_soft : PurgeRequest → Bool
asks_soft r = elim r.soft [ none ↦ false | some b ↦ b ]

abbrev pub reply_soft : PurgeRequest → Target → Bool
reply_soft r urls_target = soft_of r
reply_soft r tags_target = soft_of r
reply_soft r everything_target = false

module _ {S : Type 0} (parse : Text → Option ParsedUrl) where
  -- One purge on every instance; errors are dropped.
  unfoldable pub each_instance : (Instance S → S → S × Count) → List (Instance S) → S → ℤ → S × ℤ
  each_instance op [] s n = (s, n)
  each_instance op (i ∷ is) s n =
      let r = op i s in each_instance op is r.0 (add_64 n (count_beside r.1))

  -- The loop over the URLs or the tags.
  unfoldable pub each_target :
      (Text → Instance S → S → S × Count) → List (Instance S) → List Text → S → ℤ → S × ℤ
  unfolding each_instance
  each_target op is [] s n = (s, n)
  each_target op is (t ∷ ts) s n =
      let r = each_instance (op t) is s n in each_target op is ts r.0 r.1

  abbrev pub of_url : Bool → Text → Instance S → S → S × Count
  of_url soft u i s = purge_target i.store parse i.cache_key soft s u

  abbrev pub of_tag : Bool → Text → Instance S → S → S × Count
  of_tag soft t i s = purge_tag i.store soft s t

  abbrev pub of_all : Instance S → S → S × Count
  of_all i s = Run.purge_everything i.store s

  -- What is counted where there is no instance.
  abbrev pub unheard : List (Instance S) → ℕ → ℤ
  unheard [] n = pos n
  unheard (i ∷ is) n = pos 0

  unfoldable pub run_target : List (Instance S) → S → PurgeRequest → Target → S × ℤ
  unfolding each_target each_instance
  run_target is s r urls_target =
      each_target (of_url (soft_of r)) is r.urls s (unheard is (length r.urls))
  run_target is s r tags_target =
      each_target (of_tag (soft_of r)) is r.tags s (unheard is (length r.tags))
  run_target is s r everything_target = each_instance of_all is s (unheard is 1)

  abbrev pub replied : PurgeRequest → Target → S × ℤ → S × AdminReply
  replied r t (s, n) = (s, purged t n (reply_soft r t))

  -- `handleAdminPurge`, from the decoded request on
  unfoldable pub handle_request : List (Instance S) → S → PurgeRequest → S × AdminReply
  unfolding run_target
  handle_request is s r =
      if ltb 1 (targets r)
      then (s, refused 400)
      else if targets r == 0
      then (s, refused 400)
      else if r.purge_everything && asks_soft r
      then (s, refused 400)
      else replied r (target_of r) (run_target is s r (target_of r))

  -- `handleAdminPurge`
  unfoldable pub handle_admin_purge :
      (Text → Option PurgeRequest) → List (Instance S) → S → AdminRequest → S × AdminReply
  unfolding handle_request
  handle_admin_purge decode is s q =
      if not (q.method ==ₜ codes "POST")
      then (s, refused 405)
      else if not (has_prefix (codes "application/json") q.content_type)
          && not (is_empty q.content_type)
      then (s, refused 415)
      else elim (decode q.body) [ none ↦ (s, refused 400) | some r ↦ handle_request is s r ]
