-- ===== src/MongooseDrv/HttpParametersClient/Urls.antt =====
-- The URI of a parameter, as the server writes it and as the client asks for it.
use hq_components.Prelude.{
  List, ap, arith, get_or, length, length-append, lt→leb, refl, some, take, take_all, ℕ, ◌++◌, ◌<◌,
  ◌∙◌, ◌≡◌, ◌≤◌,
}
use hq_components.Backend.Parameters.{Parameter, last_value, table, get_name, no_parameter}
use hq_components.MongooseDrv.Text.{bytes}
use hq_components.MongooseDrv.HttpServer.{post}
use hq_components.MongooseDrv.ParametersApi.{uri_of, u32_uri}
use hq_components.MongooseDrv.HttpParametersClient.{
  u32_param, request, no_text, name_bytes, hostname, request_url,
}

abbrev pub param_name : List Parameter → ℕ → List ℕ
param_name project i = bytes (get_or (table project) i no_parameter).name

pub get_name-known :
    (project : List Parameter) (i : ℕ)
    → i < last_value project
    → get_name project i ≡ some (get_or (table project) i no_parameter).name
unfolding get_name
get_name-known project i k = rw (lt→leb (last_value project) i k) refl

pub u32_uri_lem :
    (project : List Parameter) (i : ℕ)
    → i < last_value project
    → length (param_name project i) ≤ 107
    → u32_uri project i ≡ bytes "/api/parameter_u32/" ++ param_name project i
unfolding u32_uri
u32_uri_lem project i k l =
    let name = param_name project i in
    ap (uri_of (bytes "/api/parameter_u32/")) (get_name-known project i k)
    ∙ take_all 126 (bytes "/api/parameter_u32/" ++ name)
        (omega (arith, length-append (bytes "/api/parameter_u32/") name))

pub request_url_lem :
    (project : List Parameter) (i value : ℕ)
    → i < last_value project
    → length (param_name project i) ≤ 107
    → request_url project (request u32_param post i value no_text)
      ≡ hostname ++ (bytes "/api/parameter_u32/" ++ param_name project i)
unfolding request_url
request_url_lem project i value k l =
    let name = param_name project i in
    ap (λ n. take 254 (hostname ++ (bytes "/api/parameter_u32/" ++ name_bytes n)))
      (get_name-known project i k)
    ∙ take_all 254 (hostname ++ (bytes "/api/parameter_u32/" ++ name)) (
        omega (
          arith,
          length-append (bytes "/api/parameter_u32/") name,
          length-append hostname (bytes "/api/parameter_u32/" ++ name),
        ))
