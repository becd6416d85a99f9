-- ===== src/Caddy/Admin/Decision.antt =====
-- adapter/caddy/admin.go: which requests are carried out.
use titip.Prelude.{ℕ, ◌≡◌, ◌⊎◌, Bool, true, false, ◌||◌, Option, some, List}
use titip.Text.{Text, codes, has_prefix, ◌==ₜ◌}
use titip.Http.{is_empty}
use titip.Purge.{ParsedUrl}
use titip.Caddy.{is_given}
use titip.Caddy.Admin.{
  PurgeRequest, AdminRequest, AdminReply, Instance, Target, refused, purged, urls_target,
  tags_target, everything_target, soft_of, asks_soft, run_target,
}

-- The request names one target alone, and no soft purge of everything.
pub data Names (r : PurgeRequest) : Target → Bool → Type 0 where
  by_urls :
      is_given r.urls ≡ true
      → is_given r.tags ≡ false
      → r.purge_everything ≡ false
      → Names r urls_target (soft_of r)
  by_tags :
      is_given r.urls ≡ false
      → is_given r.tags ≡ true
      → r.purge_everything ≡ false
      → Names r tags_target (soft_of r)
  by_everything :
      is_given r.urls ≡ false
      → is_given r.tags ≡ false
      → r.purge_everything ≡ true
      → asks_soft r ≡ false
      → Names r everything_target false

-- A POST of JSON, or of no declared type, that decodes.
pub record Decodes (decode : Text → Option PurgeRequest) (q : AdminRequest) (r : PurgeRequest)
    : Type 0 where
  pub is_post : (q.method ==ₜ codes "POST") ≡ true
  pub is_json :
      (has_prefix (codes "application/json") q.content_type || is_empty q.content_type) ≡ true
  pub decoded : decode q.body ≡ some r

-- What the request asks for, if it is one that is carried out.
pub record Asks (decode : Text → Option PurgeRequest) (q : AdminRequest) : Type 0 where
  pub request : PurgeRequest
  pub target : Target
  pub soft : Bool
  pub decodes : Decodes decode q request
  pub names : Names request target soft

module _ {S : Type 0} (parse : Text → Option ParsedUrl) (is : List (Instance S)) (s : S) where
  -- The target is purged, and the reply has the count.
  abbrev pub done_by : (r : PurgeRequest) → Target → Bool → S × AdminReply
  done_by r t soft = ((run_target parse is s r t).0, purged t (run_target parse is s r t).1 soft)

  -- The request is carried out, or it asks for nothing that is, and is refused with nothing done.
  abbrev pub Decided : (Text → Option PurgeRequest) → AdminRequest → S × AdminReply → Type 0
  Decided decode q result =
      ((a : Asks decode q) × (result ≡ done_by a.request a.target a.soft))
      ⊎ ((¬ Asks decode q) × ((code : ℕ) × (result ≡ (s, refused code))))
