-- ===== src/Tests/Caddy.antt =====
-- The Caddy adapter: a route under an app, and a purge by the admin API.
use titip.Prelude.{
  ℕ, suc, ◌+◌, ◌<◌, ◌≤◌, length, arith, ◌*◌, ◌≡◌, refl, Bool, true, false, Option, none, some, List,
  [], ◌∷◌,
}
use titip.Prelude.Int.{pos, negsuc}
use titip.Text.{Text, codes, trim_space, to_lower, ◌==ₜ◌}
use titip.Http.{is_empty}
use titip.Key.{CacheKey}
use titip.Storage.Dict.{lookup}
use titip.Storage.Memory.{Store}
use titip.Storage.Memory.Purges.{memory_backend}
use titip.Esi.Guard.{v4, quad, is_ip_blocked}
use titip.Esi.Fetch.{fall_back}
use titip.Esi.Options.{Processor, default_settings, processor_of, connects}
use titip.Options.{new_titip}
use titip.Caddy.{EsiRules, App, Handler, empty_app, loaded, Host}
use titip.Caddy.Provision.{Provisioned, provision}
use titip.Caddy.Provision.Precedence.{merged}
use titip.Caddy.Provision.Guarded.{provision-IsGuarded}
use titip.Caddy.Admin.{PurgeRequest, AdminRequest, Instance}
use titip.Caddy.Caddyfile.{Dispenser, ended, empty_esi, block}
use titip.Caddy.Caddyfile.Directives.{esi_cases, parse_caddyfile, parse_global_option}
use titip.Caddy.Caddyfile.Loops.{Counts, Settles}
use titip.Caddy.Caddyfile.Ends.{parse_caddyfile-Settles}
use titip.Caddy.Caddyfile.Lines.{Line, Presents, esi_lines}
use titip.Caddy.Caddyfile.RoundTrip.{block-esi_lines}
use titip.Tests.Options.{codecs}

abbrev no_rules : CacheKey
no_rules = record {
  include_protocol = false;
  exclude_host = false;
  exclude_query = false;
  preserve_query_order = false;
  included_query_params = [];
  excluded_query_params = [];
  exclude_marketing_query_params = false;
  included_header_names = [];
  included_cookie_names = [];
  case_insensitive_path = false;
  included_query_param_values = [];
}

-- Each module of storage is known by its text; the one duration that is read is a minute.
abbrev host : Host Text
host = record {
  load_module = λ t. loaded (some t);
  parse_duration = λ t. some (pos (60 * 1000000000));
  parse_bytes = λ t. some 1000;
  has_registry = false;
  fetcher = λ t r s. fall_back;
}

abbrev no_esi : EsiRules
no_esi = record {
  enabled = none;
  require_surrogate_control = none;
  max_depth = none;
  max_timeout = [];
  max_concurrent_requests = none;
  block_private_ips = none;
  allowed_hosts = [];
  allow_private_ips_for_allowed_hosts = none;
  max_response_size = [];
  forward_fragment_cookies = none;
  preserve_etag = none;
  error_marker = [];
}

-- The app sets a mode, a timeout, a switch and the depth of ESI.
abbrev app : App
app = record empty_app {
  cache_status = codes "None";
  storage_timeout = codes "1m";
  respect_client_cache_control = some true;
  esi = some (record no_esi { max_depth = some 5 });
}

-- The route turns the switch back, and lists a host for ESI.
abbrev route : Handler
route = record {
  of_route = record empty_app {
    storage_raw = codes "memory";
    respect_client_cache_control = some false;
    esi = some (record no_esi { allowed_hosts = codes "169.254.169.254" ∷ [] });
  };
  tag_header = codes " Surrogate-Key";
}

abbrev processor : Processor
processor = processor_of (record default_settings {
  max_depth = 5;
  allowed_hosts = codes "169.254.169.254" ∷ [];
  internal_fetcher = some host.fetcher;
})

abbrev provisioned : Provisioned host
provisioned = record {
  store = codes "memory";
  instance_of = record {
    config = merged host codecs no_rules app route;
    esi_processor = some processor;
  };
  takes_rewritten_url = false;
}

is_provisioned : provision host codecs no_rules app none route ≡ some provisioned
unfolding provision new_titip lookup to_lower trim_space is_empty ◌==ₜ◌
is_provisioned = refl

is_blocked : is_ip_blocked (v4 (quad 169 254 169 254)) ≡ true
unfolding is_ip_blocked
is_blocked = refl

provision-IsGuarded_example :
    connects processor (codes "169.254.169.254:80") (some (v4 (quad 169 254 169 254))) ≡ some false
provision-IsGuarded_example =
    provision-IsGuarded host codecs no_rules app none route provisioned processor
      (codes "169.254.169.254:80") (v4 (quad 169 254 169 254)) refl refl is_provisioned refl
      is_blocked

-- A purge of a tag on two instances that share a store.
abbrev instances : List (Instance Store)
instances =
    record { store = memory_backend; cache_key = no_rules }
    ∷ record { store = memory_backend; cache_key = no_rules }
    ∷ []

abbrev purge_request : AdminRequest
purge_request = record { method = codes "POST"; content_type = []; body = codes "{}" }

abbrev decode : Text → Option PurgeRequest
decode t =
    some (record { urls = []; tags = codes "news" ∷ []; purge_everything = false; soft = none })

-- A place before a block, or in a line of one.
data Place : Type 0 where
  start : List Line → Place
  at : List Text → List Line → Place

abbrev tokens : List Line → ℕ
tokens [] = 0
tokens ((k, ts) ∷ ls) = suc (length ts) + tokens ls

abbrev left : Place → ℕ
left (start ls) = suc (tokens ls)
left (at ts ls) = length ts + tokens ls

abbrev next_of : Place → Place × Bool
next_of (start ls) = (at [] ls, true)
next_of (at ts ls) = (at ts ls, false)

abbrev next_block_of : ℕ → Place → Place × Option Text
next_block_of n (start ls) = (start ls, none)
next_block_of n (at (t ∷ ts) ls) = (at ts ls, some t)
next_block_of n (at [] ((k, ts) ∷ ls)) = (at ts ls, some k)
next_block_of n (at [] []) = (at [] [], none)

abbrev next_arg_of : Place → Option (Text × Place)
next_arg_of (at (t ∷ ts) ls) = some (t, at ts ls)
next_arg_of (at [] ls) = none
next_arg_of (start ls) = none

abbrev remaining_of : Place → List Text × Place
remaining_of (start ls) = ([], start ls)
remaining_of (at ts ls) = (ts, at [] ls)

abbrev dispenser : Dispenser Place
dispenser = record {
  next = next_of;
  next_block = next_block_of;
  next_arg = next_arg_of;
  remaining_args = remaining_of;
  has_module = λ t. true;
  unmarshal_module = λ t x. some (t, x);
}

next_counts : (x : Place) → (next_of x).1 ≡ true → left (next_of x).0 < left x
next_counts (start ls) e = omega arith
next_counts (at ts ls) e = cc

last_counts : (x : Place) → left (next_of x).0 ≤ left x
last_counts (start ls) = omega arith
last_counts (at ts ls) = omega arith

token_counts :
    (n : ℕ) (x : Place) (t : Text)
    → (next_block_of n x).1 ≡ some t
    → left (next_block_of n x).0 < left x
token_counts n (start ls) t e = cc
token_counts n (at (t ∷ ts) ls) s e = omega arith
token_counts n (at [] ((k, ts) ∷ ls)) t e = omega arith
token_counts n (at [] []) t e = cc

end_counts : (n : ℕ) (x : Place) → left (next_block_of n x).0 ≤ left x
end_counts n (start ls) = omega arith
end_counts n (at (t ∷ ts) ls) = omega arith
end_counts n (at [] ((k, ts) ∷ ls)) = omega arith
end_counts n (at [] []) = omega arith

arg_counts : (x y : Place) (t : Text) → next_arg_of x ≡ some (t, y) → left y ≤ left x
arg_counts (at (t ∷ ts) ls) y s e = let same : y ≡ at ts ls = cc in rw same (omega arith)
arg_counts (at [] ls) y t e = cc
arg_counts (start ls) y t e = cc

args_count : (x : Place) → left (remaining_of x).1 ≤ left x
args_count (start ls) = omega arith
args_count (at ts ls) = omega arith

module_counts :
    (name raw : Text) (x y : Place)
    → dispenser.unmarshal_module name x ≡ some (raw, y)
    → left y ≤ left x
module_counts name raw x y e = let same : y ≡ x = cc in rw same (omega arith)

dispenser-Counts : Counts dispenser left
dispenser-Counts = record {
  by_next = next_counts;
  by_last = last_counts;
  by_token = token_counts;
  by_end = end_counts;
  by_arg = arg_counts;
  by_args = args_count;
  by_module = module_counts;
}

dispenser-Presents : Presents dispenser at (at [] [])
dispenser-Presents = record {
  arg_some = λ t ts ls. refl;
  arg_none = λ ls. refl;
  args = λ ts ls. refl;
  opens = λ name ts ls. refl;
  opens_at = λ name ts ls. refl;
  closes = refl;
  closes_at = refl;
}

abbrev tag_lines : List Line
tag_lines = (codes "tag_header", codes "X-Tags" ∷ []) ∷ (codes "storage", codes "redis" ∷ []) ∷ []

parse_caddyfile-Settles_example :
    Settles dispenser left dispenser-Counts 5 (parse_caddyfile dispenser 20 (start tag_lines))
    × Settles dispenser left dispenser-Counts 5 (parse_global_option dispenser 20 (start tag_lines))
parse_caddyfile-Settles_example =
    parse_caddyfile-Settles dispenser left dispenser-Counts 20 (start tag_lines) (omega arith)

abbrev written : EsiRules
written = record no_esi {
  enabled = some false;
  max_depth = some 5;
  max_concurrent_requests = some (negsuc 2);
  allowed_hosts = codes "a.example" ∷ codes "b.example" ∷ [];
}

block-esi_lines_example :
    block dispenser (esi_cases dispenser) 1 9 empty_esi (at [] (esi_lines written))
    ≡ ended (written, at [] [])
block-esi_lines_example =
    block-esi_lines dispenser at (at [] []) dispenser-Presents written (omega arith) (omega arith) 9
      (omega arith)
