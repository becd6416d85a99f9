-- ===== src/Tests/Background.antt =====
-- A revalidation in the background.
use titip.Prelude.{◌≡◌, refl, some, [], ◌∷◌}
use titip.Text.{codes, join, contains, to_lower}
use titip.Http.{get, values, is_empty, get_header_values}
use titip.Freshness.Calculate.{calculate_freshness}
use titip.Freshness.Cacheable.{
  directives_allow, varies_on_all, uncacheable_status, is_response_cacheable,
}
use titip.Handler.{Response, called_origin}
use titip.Handler.Save.{save_variant}
use titip.Handler.Miss.{inspect_and_prepare_esi}
use titip.Handler.Background.{
  background_request, background_freshness, may_replace, replace_entry, revalidate_origin_async,
}
use titip.Handler.Background.Replace.{MayReplace, background_stores, background_unmodified}
use titip.Tests.Handler.{config, get_page, world, stored_as_is, answer}

abbrev unmodified : Response
unmodified = record { code = 304; header = []; body = [] }

background_stores_example :
    MayReplace config
      (world (some answer) stored_as_is)
      get_page
      (codes "p=/page:h=example.com:m=GET:")
      (codes "default")
unfolding revalidate_origin_async replace_entry may_replace background_freshness is_empty values
    contains to_lower get inspect_and_prepare_esi calculate_freshness is_response_cacheable
    uncacheable_status varies_on_all directives_allow get_header_values join save_variant
background_stores_example =
    background_stores config (world (some answer) stored_as_is) get_page
      (codes "p=/page:h=example.com:m=GET:") (codes "default") refl

background_unmodified_example :
    revalidate_origin_async config
      (world (some unmodified) stored_as_is)
      get_page
      (codes "p=/page:h=example.com:m=GET:")
      (codes "default")
    ≡ called_origin (background_request config (world (some unmodified) stored_as_is) get_page) ∷ []
background_unmodified_example =
    background_unmodified config (world (some unmodified) stored_as_is) get_page
      (codes "p=/page:h=example.com:m=GET:") (codes "default") unmodified refl refl
