-- ===== src/MongooseDrv/ParametersApi/Tests.antt =====
-- Requests for parameters, and the theorems at concrete inputs.
use hq_components.Prelude.{
  List, [], arith, false, length, none, refl, replicate, some, true, ℕ, ◌<◌, ◌↔◌, ◌≡◌, ◌≤◌, ◌⊎◌,
}
use hq_components.Backend.Parameters.{
  set_value, set_string, c_string, get_max_value, get_string, get_string_name,
}
use hq_components.MongooseDrv.Text.{bytes}
use hq_components.MongooseDrv.HttpServer.{post, get, put}
use hq_components.MongooseDrv.ParametersApi.{
  answer, find_uri, not_exist, not_exist_text, parse_cb, str_parse_cb, u32_uri, str_uri,
}
use hq_components.MongooseDrv.ParametersApi.Numbers.{post-get, post-refused, post-large}
use hq_components.MongooseDrv.ParametersApi.Strings.{str_post-get, str_post_long, str_parse_cb-none}
use hq_components.MongooseDrv.Sample.{
  glob, glob-Globs, print, print-PrintsLong, project, store, store-IsStore, limit-IsNamed,
  boot_up-IsNamed,
}

post-get_example :
    let t = (set_value project 1 1 store).1 in
    (parse_cb glob project print (u32_uri project 1) (print 1) post store
      ≡ some (answer 200 (bytes "OK"), t))
    × (parse_cb glob project print (u32_uri project 1) [] get t ≡ some (answer 200 (print 1), t))
unfolding get_max_value
post-get_example =
    post-get glob glob-Globs project print print-PrintsLong 1 1 [] store boot_up-IsNamed
      store-IsStore (omega arith) (omega arith)

post-refused_test :
    parse_cb glob project print (u32_uri project 1) (print 2) post store
    ≡ some (answer 400 (bytes "Fail set value 2"), store)
unfolding get_max_value
post-refused_test =
    post-refused glob glob-Globs project print print-PrintsLong 1 2 store boot_up-IsNamed
      (omega arith) (omega arith)

post-large_test :
    parse_cb glob project print (u32_uri project 0) (print 3000000000) post store
    ≡ some (answer 200 (bytes "OK"), (set_value project 0 0 store).1)
post-large_test =
    post-large glob glob-Globs project print print-PrintsLong 0 3000000000 store limit-IsNamed
      store-IsStore (omega arith) (omega arith)

str_post-get_test :
    let t = (set_string 0 (bytes "A17") store).1 in
    (str_parse_cb glob (str_uri 0) (bytes "A17") post store ≡ some (answer 200 (bytes "OK"), t))
    × (str_parse_cb glob (str_uri 0) [] get t ≡ some (answer 200 (bytes "A17"), t))
unfolding c_string
str_post-get_test = str_post-get glob glob-Globs (bytes "A17") [] store refl (omega arith)

str_post_long_test : str_parse_cb glob (str_uri 0) (replicate 48 65) post store ≡ none
str_post_long_test = str_post_long glob glob-Globs (replicate 48 65) store (omega arith)

abbrev long_uri : List ℕ
long_uri = replicate 108 65

str_parse_cb-none_example :
    let known = glob long_uri (str_uri 0) in
    (str_parse_cb glob long_uri [] put store ≡ none) ↔ (
      ((known ≡ false) × (107 < length (c_string long_uri)))
      ⊎ ((known ≡ true) × ((put ≡ post) × (48 ≤ length {A = ℕ} []))))
unfolding get_string c_string
str_parse_cb-none_example = str_parse_cb-none glob long_uri [] put store cc

-- The response_buffer overruns at the URI of the example, whatever the method.
overrun_test : str_parse_cb glob long_uri [] put store ≡ none
unfolding str_parse_cb find_uri str_uri get_string_name not_exist not_exist_text c_string
overrun_test = refl
