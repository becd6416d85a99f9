-- ===== src/Caddy/Caddyfile.antt =====
-- adapter/caddy: the blocks of a Caddyfile, caddy.go and app.go. The dispenser of tokens and the modules of
-- Caddy are parameters.
pub mod Directives
pub mod Loops
pub mod Ends
pub mod Lines
pub mod Turns
pub mod RoundTrip
use titip.Prelude.{
  ℕ, zero, suc, ◌^◌, ◌++◌, Bool, true, false, any, Option, none, some, List, [], ◌∷◌, map, ltb,
  if◌then◌else◌,
}
use titip.Prelude.Int.{ℤ}
use titip.Text.{Text, codes, decimal, ◌==ₜ◌}
use titip.Freshness.{parse_int}
use titip.Storage.Dict.{Dict, lookup, insert}
use titip.Caddy.{KeyRules, EsiRules, TimingRules, App, Handler, empty_app, is_given}

-- `caddyfile.Dispenser`: `Next`, `NextBlock` with the value of the token, `NextArg` with it, and
-- `RemainingArgs`; `GetModule`, and `UnmarshalModule` with `JSONModuleObject`.
pub record Dispenser (X : Type 0) : Type 0 where
  pub next : X → X × Bool
  pub next_block : ℕ → X → X × Option Text
  pub next_arg : X → Option (Text × X)
  pub remaining_args : X → List Text × X
  pub has_module : Text → Bool
  pub unmarshal_module : Text → X → Option (Text × X)

-- A result, an error, or no fuel.
pub data Outcome (A : Type 0) : Type 0 where
  ended : A → Outcome A
  rejected exhausted : Outcome A

-- `strconv.ParseBool`
unfoldable pub parse_bool : Text → Option Bool
parse_bool t =
    if any (λ s. s ==ₜ t)
      (codes "1" ∷ codes "t" ∷ codes "T" ∷ codes "true" ∷ codes "TRUE" ∷ codes "True" ∷ [])
    then some true
    else if any (λ s. s ==ₜ t)
        (codes "0" ∷ codes "f" ∷ codes "F" ∷ codes "false" ∷ codes "FALSE" ∷ codes "False" ∷ [])
    then some false
    else none

-- `strconv.ParseUint(s, 10, 32)`
unfoldable pub parse_uint_32 : Text → Option ℕ
parse_uint_32 t = elim (decimal t) [
  | none ↦ none
  | some n ↦ if ltb n (2 ^ 32) then some n else none
]

-- The rules that nothing has set
abbrev pub empty_key : KeyRules
empty_key = record {
  include_protocol = none;
  exclude_host = none;
  exclude_query = none;
  preserve_query_order = none;
  included_query_params = [];
  excluded_query_params = [];
  exclude_marketing_query_params = none;
  included_header_names = [];
  included_cookie_names = [];
  case_insensitive_path = none;
  included_query_param_values = [];
}

abbrev pub empty_esi : EsiRules
empty_esi = record {
  enabled = none;
  require_surrogate_control = none;
  max_depth = none;
  max_timeout = [];
  max_concurrent_requests = none;
  block_private_ips = none;
  allowed_hosts = [];
  allow_private_ips_for_allowed_hosts = none;
  max_response_size = [];
  forward_fragment_cookies = none;
  preserve_etag = none;
  error_marker = [];
}

-- The case of a `switch` for a text, or the default.
unfoldable pub switch {ℓ} : {A : Type ℓ} → Text → List (Text × A) → A → A
switch t [] other = other
switch t ((k, a) ∷ cases) other = let rest = switch t cases other in if k ==ₜ t then a else rest

-- A parameter with more values.
unfoldable pub add_values : Text → List Text → Dict (List Text) → Dict (List Text)
add_values k vs d = insert k ((elim (lookup k d) [ none ↦ [] | some old ↦ old ]) ++ vs) d

module _ {X : Type 0} (d : Dispenser X) where
  -- What a case of the switch does behind its name.
  abbrev pub Reads : Type 0 → Type 0
  Reads R = X → Outcome (R × X)

  module _ {R : Type 0} where
    -- One argument, which must be there
    abbrev pub text_arg : (Text → R) → Reads R
    text_arg f x = elim (d.next_arg x) [ none ↦ rejected | some (t, y) ↦ ended (f t, y) ]

    abbrev pub of_parsed {ℓ} : {A : Type ℓ} → (A → R) → X → Option A → Outcome (R × X)
    of_parsed f y none = rejected
    of_parsed f y (some a) = ended (f a, y)

    -- One argument that is parsed
    abbrev pub parsed_arg : {A : Type 0} → (Text → Option A) → (A → R) → Reads R
    parsed_arg parse f x = elim (d.next_arg x) [
      | none ↦ rejected
      | some (t, y) ↦ of_parsed f y (parse t)
    ]

    -- A switch, which is on where it has no argument
    abbrev pub flag_arg : (Bool → R) → Reads R
    flag_arg f x = elim (d.next_arg x) [
      | none ↦ ended (f true, x)
      | some (t, y) ↦ of_parsed f y (parse_bool t)
    ]

    -- All arguments that are left on the line
    abbrev pub list_args : (List Text → R) → Reads R
    list_args f x = let (ts, y) = d.remaining_args x in ended (f ts, y)

    -- The rest of a loop, where there is no error
    abbrev pub go_on : (R → Reads R) → Outcome (R × X) → Outcome (R × X)
    go_on k (ended (s, z)) = k s z
    go_on k rejected = rejected
    go_on k exhausted = exhausted

    -- The loop over a block; each round takes one of the fuel.
    unfoldable pub block : (R → List (Text × Reads R)) → ℕ → ℕ → R → Reads R
    unfolding switch
    block cases nesting zero r x = exhausted
    block cases nesting (suc f) r x =
        let (y, name) = d.next_block nesting x in
        elim name [
          | none ↦ ended (r, y)
          | some t ↦ go_on (block cases nesting f) (switch t (cases r) (λ z. rejected) y)
        ]

    -- The loop over the tokens that open a block
    unfoldable pub blocks : (R → List (Text × Reads R)) → ℕ → ℕ → R → Reads R
    unfolding block
    blocks cases inner zero r x = exhausted
    blocks cases inner (suc f) r x =
        let (y, more) = d.next x in
        elim more [
          | false ↦ ended (r, y)
          | true ↦ go_on (blocks cases inner f) (block cases 0 inner r y)
        ]
