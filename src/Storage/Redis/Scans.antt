-- ===== src/Storage/Redis/Scans.antt =====
-- storage/redis/redis.go: what Redis documents of its commands, and what a loop over SCAN leaves.
use titip.Prelude.{
  ℕ, zero, suc, ◌≡◌, refl, ap, sym, subst, ◌⊎◌, inl, inr, Bool, true, false, Option, none, some,
  List, [], ◌∷◌, ◌++◌, arith, Bool-cases,
}
use titip.Text.{Text, codes}
use titip.Key.Escape.Safe.{Each}
use titip.Purge.Run.Removes.{IsLiteral}
use titip.Storage.Memory.{holds_key}
use titip.Storage.Redis.{
  hkeys, unlink, scan, Reply, nil, failure, bytes, strings, fields, integer, page, Server,
  is_failure,
}
use titip.Storage.Redis.Pages.{
  Scanned, exhausted, errored, ended, add_count, after_batch, by_reply, scan_pages, unlink_some,
  unlink_page, scan_and_unlink,
}

-- The reply of HKEYS: an error, or the fields of the key, which has none where it is not there.
pub data FieldsReply (is_there : Bool) : Reply → Type 0 where
  refused : FieldsReply is_there failure
  no_entry : is_there ≡ false → FieldsReply is_there nil
  no_fields : is_there ≡ false → FieldsReply is_there (strings [])
  some_fields : (f : Text) (fs : List Text) → FieldsReply is_there (strings (f ∷ fs))

module _ {S : Type 0} (server : Server S) where
  -- Keys are unlinked without an error, where there are any.
  pub data Deletes (s : S) : List Text → S → Type 0 where
    nothing : Deletes s [] s
    unlinked :
        {t : S} (k : Text) (ks : List Text)
        → (server s (unlink (k ∷ ks))).0 ≡ t
        → is_failure (server s (unlink (k ∷ ks))).1 ≡ false
        → Deletes s (k ∷ ks) t

  -- An iteration over SCAN from a cursor to its end, by a client that unlinks what each page holds.
  pub data Iteration (pattern : Text) : S → ℕ → S → Type 0 where
    last_page :
        {s t u : S} {c : ℕ} (keys : List Text)
        → server s (scan c pattern) ≡ (t, page 0 keys)
        → Deletes t keys u
        → Iteration pattern s c u
    next_page :
        {s t u v : S} {c d : ℕ} (keys : List Text)
        → server s (scan c pattern) ≡ (t, page (suc d) keys)
        → Deletes t keys u
        → Iteration pattern u (suc d) v
        → Iteration pattern s c v

  -- A page of the iteration holds the key.
  abbrev pub IsListed : {pattern : Text} {s t : S} {c : ℕ} → Text → Iteration pattern s c t → Type 0
  IsListed k (last_page keys e d) = holds_key k keys ≡ true
  IsListed k (next_page keys e d it) = (holds_key k keys ≡ true) ⊎ IsListed k it

  -- The key is there before and after every step of the iteration.
  abbrev pub Stays :
      {pattern : Text} {s t : S} {c : ℕ}
      → (S → Text → Bool)
      → Text
      → Iteration pattern s c t
      → Type 0
  Stays {s = s} {t = t} holds k (last_page keys e d) = (holds s k ≡ true) × (holds t k ≡ true)
  Stays {s = s} holds k (next_page keys e d it) = (holds s k ≡ true) × Stays holds k it

  -- What Redis documents of HKEYS, UNLINK and SCAN, where `holds` says which keys are there: none of them
  -- brings a key, a key that is unlinked is gone, and an iteration over SCAN returns every key that
  -- matches its pattern and is there from its start to its end. A pattern of literal bytes and a star
  -- matches what begins with them.
  pub record Documented (holds : S → Text → Bool) : Type 0 where
    pub glob : Text → Text → Bool
    pub fields_of : (s : S) (k : Text) → FieldsReply (holds s k) (server s (hkeys k)).1
    pub hkeys_brings_none :
        (s : S) (j k : Text) → holds (server s (hkeys j)).0 k ≡ true → holds s k ≡ true
    pub scan_brings_none :
        (s : S) (c : ℕ) (p k : Text) → holds (server s (scan c p)).0 k ≡ true → holds s k ≡ true
    pub unlink_brings_none :
        (s : S) (ks : List Text) (k : Text)
        → holds (server s (unlink ks)).0 k ≡ true
        → holds s k ≡ true
    pub unlink_removes :
        (s : S) (ks : List Text) (k : Text)
        → is_failure (server s (unlink ks)).1 ≡ false
        → holds_key k ks ≡ true
        → holds (server s (unlink ks)).0 k ≡ false
    pub scan_is_complete :
        (p k : Text) {s t : S} (it : Iteration p s 0 t)
        → glob p k ≡ true
        → Stays holds k it
        → IsListed k it
    pub glob_prefix :
        (prefix rest : Text)
        → Each IsLiteral (prefix ++ rest)
        → glob (prefix ++ codes "*") (prefix ++ rest) ≡ true

  module _ (holds : S → Text → Bool) (redis : Documented holds) (k : Text) where
    deleted-brings_none :
        {s t : S} {ks : List Text} → Deletes s ks t → holds t k ≡ true → holds s k ≡ true
    deleted-brings_none nothing h = h
    deleted-brings_none {s = s} (unlinked j ks e ok) h =
        redis.unlink_brings_none s (j ∷ ks) k (subst (λ u. holds u k ≡ true) (sym e) h)

    deleted_gone :
        {s t : S} {ks : List Text} → Deletes s ks t → holds_key k ks ≡ true → holds t k ≡ false
    deleted_gone nothing h = cc
    deleted_gone {s = s} (unlinked j ks e ok) h =
        subst (λ u. holds u k ≡ false) e (redis.unlink_removes s (j ∷ ks) k ok h)

    scanned-brings_none :
        {s t : S} {c d : ℕ} {p : Text} {ks : List Text}
        → server s (scan c p) ≡ (t, page d ks)
        → holds t k ≡ true
        → holds s k ≡ true
    scanned-brings_none {s = s} {c = c} {p = p} e h =
        redis.scan_brings_none s c p k (subst (λ u. holds u.0 k ≡ true) (sym e) h)

    pub there_before :
        {p : Text} {s t : S} {c : ℕ} → Iteration p s c t → holds t k ≡ true → holds s k ≡ true
    there_before (last_page keys e d) h = scanned-brings_none e (deleted-brings_none d h)
    there_before (next_page keys e d it) h =
        scanned-brings_none e (deleted-brings_none d (there_before it h))

    at_end-Stays :
        {p : Text} {s t : S} {c : ℕ} (it : Iteration p s c t) → holds t k ≡ true → Stays holds k it
    at_end-Stays (last_page keys e d) h = (there_before (last_page keys e d) h, h)
    at_end-Stays (next_page keys e d it) h =
        (there_before (next_page keys e d it) h, at_end-Stays it h)

    listed_gone :
        {p : Text} {s t : S} {c : ℕ} (it : Iteration p s c t)
        → IsListed k it
        → holds t k ≡ true
        → holds t k ≡ false
    listed_gone (last_page keys e d) l h = deleted_gone d l
    listed_gone (next_page keys e d it) (inl l) h = cc (deleted_gone d l, there_before it h)
    listed_gone (next_page keys e d it) (inr l) h = listed_gone it l h

    -- An iteration leaves no key that matches its pattern.
    pub Iteration-removes :
        {p : Text} {s t : S} → Iteration p s 0 t → redis.glob p k ≡ true → holds t k ≡ false
    Iteration-removes {p = p} {s = s} {t = t} it m = elim (Bool-cases (holds t k)) [
      | inl there ↦ listed_gone it (redis.scan_is_complete p k it m (at_end-Stays it there)) there
      | inr gone ↦ gone
    ]

  unlinked-Deletes :
      (s : S) (keys : List Text) (n : ℕ)
      → (unlink_page server s keys).1 ≡ some n
      → Deletes s keys (unlink_page server s keys).0
  unfolding unlink_page unlink_some
  unlinked-Deletes s [] n e = nothing
  unlinked-Deletes s (k ∷ ks) n e = elim (Bool-cases (is_failure (server s (unlink (k ∷ ks))).1)) [
    | inl f ↦ ground (arith, e, f)
    | inr ok ↦ unlinked k ks refl ok
  ]

  page-Deletes :
      (s : S) (keys : List Text) (t : S) (n : ℕ)
      → unlink_page server s keys ≡ (t, some n)
      → Deletes s keys t
  page-Deletes s keys t n e =
      subst (Deletes s keys) (ap (λ r. r.0) e) (unlinked-Deletes s keys n (ap (λ r. r.1) e))

  ended_of : (m d : ℕ) (x : Scanned) → add_count m x ≡ ended d → (n : ℕ) × (x ≡ ended n)
  ended_of m d exhausted e = cc
  ended_of m d errored e = cc
  ended_of m d (ended n) e = (n, refl)

  module _ (p : Text) where
    Iterates : (S → ℕ → S × Scanned) → Type 0
    Iterates next = (s : S) (c d : ℕ) → (next s c).1 ≡ ended d → Iteration p s c (next s c).0

    module _ (next : S → ℕ → S × Scanned) (iterates : Iterates next) (s : S) (c d : ℕ) where
      page-Iteration :
          (t : S) (keys : List Text) (i : ℕ) (r : S × Option ℕ)
          → server s (scan c p) ≡ (t, page i keys)
          → unlink_page server t keys ≡ r
          → (after_batch server false (λ j. scan j p) (unlink_page server) next i r).1 ≡ ended d
          → Iteration p s c
              (after_batch server false (λ j. scan j p) (unlink_page server) next i r).0
      unfolding after_batch Iterates
      page-Iteration t keys i (u, none) at r e = cc
      page-Iteration t keys zero (u, some m) at r e = last_page keys at (page-Deletes t keys u m r)
      page-Iteration t keys (suc i) (u, some m) at r e =
          let later = ended_of m d (next u (suc i)).1 e in
          next_page keys at (page-Deletes t keys u m r) (iterates u (suc i) later.0 later.1)

      reply-Iteration :
          (x : S × Reply)
          → server s (scan c p) ≡ x
          → (by_reply server false (λ j. scan j p) (unlink_page server) next x).1 ≡ ended d
          → Iteration p s c (by_reply server false (λ j. scan j p) (unlink_page server) next x).0
      unfolding by_reply
      reply-Iteration (t, page i keys) at e =
          page-Iteration t keys i (unlink_page server t keys) at refl e
      reply-Iteration (t, nil) at e = cc
      reply-Iteration (t, failure) at e = cc
      reply-Iteration (t, bytes b) at e = cc
      reply-Iteration (t, strings b) at e = cc
      reply-Iteration (t, fields b) at e = cc
      reply-Iteration (t, integer b) at e = cc

    -- A loop that ends has made an iteration.
    loop-Iterates :
        (n : ℕ) → Iterates (scan_pages server false (λ j. scan j p) (unlink_page server) n)
    unfolding scan_pages Iterates
    loop-Iterates zero s c d e = cc
    loop-Iterates (suc n) s c d e =
        reply-Iteration (scan_pages server false (λ j. scan j p) (unlink_page server) n)
          (loop-Iterates n) s c d (server s (scan c p)) refl e

  pub scan_and_unlink-Iteration :
      (n d : ℕ) (s : S) (p : Text)
      → (scan_and_unlink server n s p).1 ≡ ended d
      → Iteration p s 0 (scan_and_unlink server n s p).0
  unfolding scan_and_unlink Iterates
  scan_and_unlink-Iteration n d s p e = loop-Iterates p n s 0 d e
