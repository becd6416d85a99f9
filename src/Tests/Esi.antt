-- ===== src/Tests/Esi.antt =====
-- Fragments of a page: the addresses that may be called, the headers that go out, and the assembly.
use titip.Prelude.{
  ◌*◌, ◌+◌, ◌≡◌, ◌⊎◌, refl, Bool, true, false, Option, none, some, List, [], ◌∷◌, any, arith,
}
use titip.Prelude.{All}
use titip.Prelude.Int.{ℤ, pos}
use titip.Text.{Text, codes, decimal, trim_space, to_lower, has_prefix, ◌==ₜ◌}
use titip.Http.{Header, get, values, is_empty}
use titip.Http.Name
use titip.Key.{Request}
use titip.Esi.Fragment.{Fragment, strip}
use titip.Esi.Guard.{
  v4, v6, quad, two_32, Url, SsrfConfig, is_ip_blocked, split_host_port, control, dials,
}
use titip.Esi.Options.{
  EsiOption, with_max_depth, with_allowed_hosts, Processor, processor_of, default_settings,
  new_processor,
}
use titip.Esi.Guard.Ranges.{between, ranges, is_ip_blocked_exact}
use titip.Esi.Guard.Hosts.{IsListed, dials-IsListed}
use titip.Esi.Fetch.{State, Fetched, fetched, failed, bad_status, EsiConfig, response}
use titip.Esi.Execute.{Executed, Processed, execute_fragments}
use titip.Esi.Execute.Chain.{IsChained, execute_fragments-IsChained}
use titip.Esi.Flight.{Reach, start, later, arrives, new_group, do_flight}
use titip.Esi.Flight.Shared.{IsServed, do_flight-IsServed}
use titip.Esi.Reconcile.{reconcile_headers}
use titip.Esi.Reconcile.Length.{reconcile_headers_lem}
use titip.Handler.{Config, Context}
use titip.Handler.Assemble.{Surroundings}
use titip.Tests.Handler.{config, get_page}

-- The address at which clouds serve the credentials of a machine.
is_ip_blocked_exact_example :
    (is_ip_blocked (v4 (quad 169 254 169 254)) ≡ any (between (quad 169 254 169 254)) ranges)
    × (is_ip_blocked (v6 (65535 * two_32 + quad 169 254 169 254))
        ≡ any (between (quad 169 254 169 254)) ranges)
is_ip_blocked_exact_example = is_ip_blocked_exact (quad 169 254 169 254) (ground arith)

abbrev guarded : SsrfConfig
guarded = record {
  block_private_ips = true;
  allowed_hosts = codes "*.example.com" ∷ [];
  allow_private_ips_for_allowed_hosts = false;
}

abbrev api_host : Text
api_host = codes "api.example.com:443"

api_dialled : dials guarded api_host (some (v4 (quad 93 184 216 34))) ≡ true
unfolding dials split_host_port has_prefix is_empty to_lower trim_space ◌==ₜ◌
api_dialled = refl

dials-IsListed_example :
    (host : Text) × (split_host_port api_host ≡ some host)
    × IsListed host guarded.allowed_hosts
    × ((guarded.allow_private_ips_for_allowed_hosts ≡ true)
        ⊎ (control guarded (some (v4 (quad 93 184 216 34))) ≡ true))
unfolding is_empty
dials-IsListed_example =
    dials-IsListed guarded api_host (some (v4 (quad 93 184 216 34))) refl api_dialled

abbrev with_session : Request
with_session = record get_page {
  header = (codes "Cookie", codes "s=1" ∷ []) ∷ (codes "Authorization", codes "Bearer t" ∷ []) ∷ [];
}

abbrev elsewhere : Url
elsewhere = record {
  scheme = codes "https";
  host = codes "other.org";
  request_uri = codes "/f";
  text = codes "https://other.org/f";
}

abbrev below_page : State
below_page = record { depth = 1; max_depth = 3; visited = codes "/page" ∷ [] }

-- A tag whose source and alternative both fail.
abbrev lost : Fragment
lost = record (strip 1 24) { src = codes "/f"; alt = codes "/g"; on_error = codes "continue" }

abbrev all_fail : Text → State → Fetched
all_fail url st = failed (bad_status 503)

abbrev always : Fragment → Bool
always f = true

abbrev no_duration : Text → Option ℤ
no_duration t = none

abbrev no_documents : State → Text → List Fragment → Option Executed
no_documents st parent fs = none

-- Every URL has a document that includes `/f`.
abbrev document : Text
document = codes "a<esi:include src=\"/f\"/>b"

abbrev same_document : Text → State → Fetched
same_document url st = fetched (record { body = document; cookies = [] })

execute_fragments-IsChained_example :
    (x : Executed) × (execute_fragments
        (codes "error")
        no_duration
        same_document
        always
        3
        below_page
        document
        (lost ∷ [])
      ≡ some x)
    × All (IsChained below_page) x.calls
execute_fragments-IsChained_example =
    execute_fragments-IsChained (codes "error") no_duration same_document always 3 below_page
      document (lost ∷ []) (omega arith)

one_flight : Reach (do_flight new_group).0
one_flight = later start (arrives refl)

do_flight-IsServed_example : IsServed (do_flight (do_flight new_group).0)
do_flight-IsServed_example = do_flight-IsServed one_flight

abbrev sized : Header
sized = (codes "Content-Length", codes "26" ∷ []) ∷ (codes "Etag", codes "\"v1\"" ∷ []) ∷ []

abbrev short : Processed
short = record { body = codes "a!b"; set_cookies = codes "s=2" ∷ [] }

has_length : is_empty (get sized Name.content_length) ≡ false
unfolding is_empty get
has_length = refl

reconcile_headers_lem_example :
    (decimal (get (reconcile_headers true sized (some short)) Name.content_length) ≡ some 3)
    × (values (reconcile_headers false sized (some short)) Name.etag ≡ [])
    × (values (reconcile_headers false sized (some short)) Name.last_modified ≡ [])
reconcile_headers_lem_example = reconcile_headers_lem true sized short has_length

abbrev found : Fragment
found = record (strip 1 24) { src = codes "/f" }

abbrev esi_config : EsiConfig
esi_config = record {
  max_depth = 3;
  max_response_size = 1000;
  disable_forward_cookies = false;
  preserve_etag = false;
  include_error_marker = [];
  internal_fetcher = none;
}

abbrev surroundings : Surroundings
surroundings = record {
  network = record {
    urls = record {
      parse = λ t. none;
      of_path = λ t. record { scheme = []; host = []; request_uri = t; text = t };
    };
    client = λ r st. response 200 [] (codes "!");
  };
  in_time = always;
  context = none;
}

abbrev with_esi : Config
with_esi = record config { has_esi = true }

abbrev page_context : Context
page_context = record {
  request = get_page;
  directives = none;
  primary_key = codes "p=/page:h=example.com:m=GET:";
  variant_key = codes "default";
  meta = none;
  is_soft_purged = false;
  variant = none;
  now = pos 0;
  is_vary_miss = false;
}

-- A depth of 5, one host, and no blocks of private addresses lifted.
abbrev given_options : List (Option EsiOption)
given_options =
    some (with_max_depth 5) ∷ some (with_allowed_hosts (codes "169.254.169.254" ∷ [])) ∷ []

abbrev made : Processor
made =
    processor_of
      (record default_settings { max_depth = 5; allowed_hosts = codes "169.254.169.254" ∷ [] })

is_made : new_processor given_options ≡ some made
unfolding new_processor is_empty trim_space
is_made = refl

is_blocked : is_ip_blocked (v4 (quad 169 254 169 254)) ≡ true
unfolding is_ip_blocked
is_blocked = refl
