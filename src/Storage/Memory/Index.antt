-- ===== src/Storage/Memory/Index.antt =====
-- internal/teststore/store.go: the keys that the index of tags lists.
use titip.Prelude.{
  ◌≡◌, refl, sym, ◌∙◌, inl, inr, Bool, false, ◌&&◌, ◌||◌, some, List, [], ◌∷◌, arith, if◌then◌else◌,
  Bool-cases, Option-cases,
}
use titip.Text.{Text, ◌==ₜ◌, ==ₜ_iff}
use titip.Storage.Dict.{Dict, lookup, insert, lookup-insert, lookup-remove}
use titip.Storage.Memory.{holds_key, add_key, or_empty, index_tags}
use titip.Storage.Memory.Purges.{without_key, put_keys, drop_tag, drop_tags}

-- Does the index list the key under the tag?
abbrev pub is_listed : Text → Text → Dict (List Text) → Bool
is_listed k t d = holds_key k (or_empty (lookup t d))

holds_key-add_key :
    (j k : Text) (keys : List Text) → holds_key j (add_key k keys) ≡ (k ==ₜ j || holds_key j keys)
holds_key-add_key j k keys = elim (Bool-cases (holds_key k keys)) [
  | inl held ↦ elim (Bool-cases (k ==ₜ j)) [
    | inl same ↦ rw (held, same) (rw ((==ₜ_iff k j).0 same) at held)
    | inr other ↦ rw (held, other) refl
  ]
  | inr fresh ↦ rw fresh refl
]

holds_key-without_key :
    (j k : Text) (keys : List Text)
    → (k ==ₜ j) ≡ false
    → holds_key j (without_key k keys) ≡ holds_key j keys
unfolding without_key
holds_key-without_key j k [] other = refl
holds_key-without_key j k (i ∷ keys) other =
    ground (arith, ==ₜ_iff i k, ==ₜ_iff i j, ==ₜ_iff k j, holds_key-without_key j k keys other)

put_keys-is_listed :
    (j t u : Text) (keys : List Text) (d : Dict (List Text))
    → is_listed j u (put_keys t keys d) ≡ (if t ==ₜ u then holds_key j keys else is_listed j u d)
unfolding put_keys
put_keys-is_listed j t u [] d = rw (lookup-remove u t d) (ground arith)
put_keys-is_listed j t u (k ∷ keys) d = rw (lookup-insert u t (k ∷ keys) d) (ground arith)

of_tag :
    (j t u : Text) (keys : List Text) (d : Dict (List Text))
    → lookup t d ≡ some keys
    → (if t ==ₜ u then holds_key j keys else is_listed j u d) ≡ is_listed j u d
of_tag j t u keys d e = elim (Bool-cases (t ==ₜ u)) [
  | inl same ↦ rw (same, sym ((==ₜ_iff t u).0 same), e) refl
  | inr other ↦ rw other refl
]

-- What is dropped of one key leaves the others listed.
drop_tag-is_listed :
    (j k t u : Text) (d : Dict (List Text))
    → (k ==ₜ j) ≡ false
    → is_listed j u (drop_tag k t d) ≡ is_listed j u d
unfolding drop_tag
drop_tag-is_listed j k t u d other = elim (Option-cases (lookup t d)) [
  | inl e ↦ rw (e, drop_tag) refl
  | inr (keys, e) ↦
      rw (e, drop_tag)
        (put_keys-is_listed j t u (without_key k keys) d
          ∙ rw (holds_key-without_key j k keys other) (of_tag j t u keys d e))
]

pub drop_tags-is_listed :
    (j k u : Text) (ts : List Text) (d : Dict (List Text))
    → (k ==ₜ j) ≡ false
    → is_listed j u (drop_tags k ts d) ≡ is_listed j u d
unfolding drop_tags
drop_tags-is_listed j k u [] d other = refl
drop_tags-is_listed j k u (t ∷ ts) d other =
    drop_tags-is_listed j k u ts (drop_tag k t d) other ∙ drop_tag-is_listed j k t u d other

one_tag :
    (j k t u : Text) (d : Dict (List Text))
    → is_listed j u (insert t (add_key k (or_empty (lookup t d))) d)
      ≡ ((k ==ₜ j && t ==ₜ u) || is_listed j u d)
one_tag j k t u d = elim (Bool-cases (t ==ₜ u)) [
  | inl same ↦
      rw
        (
          lookup-insert u t (add_key k (or_empty (lookup t d))) d,
          same,
          holds_key-add_key j k (or_empty (lookup t d)),
          (==ₜ_iff t u).0 same,
        )
        (ground arith)
  | inr other ↦ rw (lookup-insert u t (add_key k (or_empty (lookup t d))) d, other) (ground arith)
]

-- A write lists its key under its tags, and takes no key out.
pub index_tags-is_listed :
    (j k u : Text) (ts : List Text) (d : Dict (List Text))
    → is_listed j u (index_tags k ts d) ≡ ((k ==ₜ j && holds_key u ts) || is_listed j u d)
unfolding index_tags
index_tags-is_listed j k u [] d = ground arith
index_tags-is_listed j k u (t ∷ ts) d =
    index_tags-is_listed j k u ts (insert t (add_key k (or_empty (lookup t d))) d)
    ∙ rw (one_tag j k t u d) (ground arith)
