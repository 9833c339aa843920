-- ===== src/Cors/Tests.antt =====
-- The theorems on CORS at concrete inputs.
use task_queue_system.Prelude.{◌≡◌, refl, [], ◌∷◌, txt, some, none, text_eq, includes, All, trim}
use task_queue_system.Json.{null}
use task_queue_system.Http.{Request}
use task_queue_system.Prelude.Dict.{lookup}
use task_queue_system.Samples.{sample_config}
use task_queue_system.Cors.{cors_middleware, parse_origin_list, strip_slash, split_commas}
use task_queue_system.Cors.Allowed.{
  headers_of, allow_origin, allow_origin_exactly, IsExplicit, parse_origin_list-IsExplicit,
}

abbrev browser : Request
browser = record {
  method = txt "OPTIONS";
  path = txt "/api/jobs/email";
  ip = none;
  headers = (txt "origin", txt "https://slakedesign.com/") ∷ [];
  query = [];
  body = null;
}

allow_origin_exactly_example :
    lookup allow_origin (headers_of (cors_middleware sample_config browser []))
    ≡ some (txt "https://slakedesign.com")
unfolding lookup text_eq includes strip_slash
allow_origin_exactly_example = allow_origin_exactly sample_config browser [] refl

parsed : parse_origin_list (txt "https://a.de/, *,,b") ≡ txt "https://a.de" ∷ txt "b" ∷ []
unfolding parse_origin_list split_commas strip_slash text_eq trim
parsed = refl

parse_origin_list-IsExplicit_example :
    All IsExplicit (parse_origin_list (txt "https://a.de/, *,,b"))
parse_origin_list-IsExplicit_example = parse_origin_list-IsExplicit (txt "https://a.de/, *,,b")
