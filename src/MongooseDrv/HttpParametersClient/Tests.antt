-- ===== src/MongooseDrv/HttpParametersClient/Tests.antt =====
-- Calls of the client, and the theorems at concrete inputs.
use hq_components.Prelude.{List, [], arith, drop, false, map, refl, some, true, ◌++◌, ◌∷◌, ◌≡◌, ◌≢◌}
use hq_components.Backend.Parameters.{
  set_value, get_value, get_max_value, set_string, text_buffer, c_string,
}
use hq_components.MongooseDrv.HttpParametersClient.Task.{
  message, Task, through, waits_mutex, serve_all,
}
use hq_components.MongooseDrv.HttpParametersClient.Turns.{Served, polls_of, serve_all-ended}
use hq_components.MongooseDrv.Text.{bytes}
use hq_components.MongooseDrv.ParametersApi.{answer}
use hq_components.Backend.Frame.{ok, fail}
use hq_components.MongooseDrv.HttpParametersClient.{
  http_msg, expired, error, set_u32_value, set_u32_value_dont_wait, get_u32_value, ping_server,
  get_str_value, send_request, run, on_event, result_of,
}
use hq_components.MongooseDrv.HttpParametersClient.Results.{
  set_u32_value_lem, dont_wait-never_ok, get_u32_value_lem,
}
use hq_components.MongooseDrv.HttpParametersClient.Exchange.{served, served-set_u32_value}
use hq_components.MongooseDrv.Sample.{
  glob, glob-Globs, differ, differ-Compares, print, print-PrintsLong, project, store, store-IsStore,
  boot_up-IsNamed,
}

-- A server that cannot be reached: the value is stored here all the same.
set_u32_value_lem_test :
    set_u32_value project 1 0 true (expired ∷ error ∷ []) store
    ≡ some (fail, (set_value project 1 0 store).1)
unfolding set_value
set_u32_value_lem_test = set_u32_value_lem project 1 0 (expired ∷ error ∷ []) store refl

dont_wait-never_ok_test :
    ((set_value project 1 0 store).0 ≡ true
      → set_u32_value_dont_wait project 1 0 true store
        ≡ some (fail, (set_value project 1 0 store).1))
    × (ping_server project true ≢ ok)
dont_wait-never_ok_test = dont_wait-never_ok project 1 0 true store

-- A text that comes from the server goes to the store, and not to the caller either.
got_serial :
    get_str_value project 0 4
      (9 ∷ 9 ∷ 9 ∷ 9 ∷ [])
      true
      (http_msg (answer 200 (bytes "A17")) ∷ [])
      store
    ≡ some (ok, ((9 ∷ 9 ∷ 9 ∷ 9 ∷ []), (set_string 0 (bytes "A17") store).1))
unfolding get_str_value send_request run on_event result_of set_string text_buffer c_string
got_serial = refl

-- The server's 1 comes to the store, and the caller's 55 stays.
get_u32_value_lem_test :
    let t = (set_value project 1 1 store).1 in
    (get_u32_value project 1 55 true (http_msg (answer 200 (print 1)) ∷ []) store
      ≡ some (ok, (55, t)))
    × (get_value project 1 t ≡ 1)
unfolding get_max_value
get_u32_value_lem_test =
    get_u32_value_lem project print 1 1 55 store print-PrintsLong (omega arith) store-IsStore
      (omega arith) (omega arith)

served-set_u32_value_example :
    let a = answer 200 (bytes "OK") in
    let store' = (set_value project 1 0 store).1 in
    (served glob differ (drop 21) print project 30 1 0 store ≡ some (a, store'))
    × (set_u32_value project 1 0 true (http_msg a ∷ []) store ≡ some (ok, store'))
    × (get_value project 1 store' ≡ 0)
    × (get_value project 1 store' ≡ 0)
unfolding get_max_value
served-set_u32_value_example =
    served-set_u32_value glob differ (drop 21) print project 30 1 0 store store glob-Globs
      differ-Compares print-PrintsLong (λ path. refl) boot_up-IsNamed (omega arith) store-IsStore
      store-IsStore (omega arith) (omega arith)

abbrev started : Task
started = record { done = false; mutex = true; ended = [] }

-- An answer in the second poll, and a connection that fails.
abbrev two_requests : List Served
two_requests =
    record { request = 4; before = 1 ∷ []; answered = true }
    ∷ record { request = 7; before = []; answered = false }
    ∷ []

serve_all-ended_example :
    (after : Task) × (serve_all (map polls_of two_requests) started ≡ through after)
    × (after.ended ≡ [] ++ map (λ (x : Served). x.request) two_requests)
serve_all-ended_example = serve_all-ended two_requests started

-- Two answers before any close block the task for good.
late_close :
    serve_all (((message 4 ∷ []) ∷ []) ∷ ((message 7 ∷ []) ∷ []) ∷ []) started ≡ waits_mutex
unfolding serve_all
late_close = refl
