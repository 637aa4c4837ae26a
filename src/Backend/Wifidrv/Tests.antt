-- ===== src/Backend/Wifidrv/Tests.antt =====
-- Runs of the Wi-Fi driver, and its theorems at concrete inputs.
use hq_components.Prelude.{
  List, Option, [], arith, false, length, none, refl, replicate, some, true, ℕ, ◌<◌, ◌||◌, ◌↔◌, ◌∷◌,
  ◌≡◌,
}
use hq_components.Backend.Wifidrv.{
  idle, ready, Ctx, Radio, nothing, on_connect, on_disconnect, Event, round, other, ask_connect,
  ask_disconnect, got_ip, run, step, dispatch, signal, set_from_ap_list,
}
use hq_components.Backend.Wifidrv.Callbacks.{alternates, run-alternates}
use hq_components.Backend.Wifidrv.Attempts.{rounds, GivenUp, IsTrying, run-GivenUp, run-ask_connect}
use hq_components.Backend.Wifidrv.Credentials.{Config, set_ap_name, get_ap_name, set_ap_name_lem}
use hq_components.Backend.Parameters.{c_string}
use hq_components.Backend.Wifidrv.Flash.{
  ConData, Blobs, Keeper, read_credentials, keep_credentials, is_changed,
}
use hq_components.Backend.Wifidrv.Restart.{IsStore, keep-read}
use hq_components.Backend.Wifidrv.Requests.{get_scan_result, get_scan_result-none}
use hq_components.Backend.Wifidrv.Scan.{set_from_ap_list-none}

abbrev station : Ctx
station = record {
  is_server = false;
  state = idle;
  is_started = true;
  is_power_save = false;
  connected = false;
  disconnect_req = false;
  connect_req = false;
  read_wifi_data = true;
  connect_attemps = 0;
  reason_disconnect = 0;
  client_cnt = 0;
  on_connect_cb = 1 ∷ 2 ∷ [];
  on_disconnect_cb = 3 ∷ [];
}

abbrev accepts : Radio
accepts = record { connects = true; has_data = true }

abbrev refuses : Radio
refuses = record { connects = false; has_data = true }

abbrev asking : Ctx
asking = record station { connect_req = true }

abbrev up_and_down : List Event
up_and_down =
    other ask_connect
    ∷ round accepts
    ∷ round accepts
    ∷ other got_ip
    ∷ round accepts
    ∷ round accepts
    ∷ other ask_disconnect
    ∷ round accepts
    ∷ round accepts
    ∷ []

one_connection :
    (run up_and_down station).0
    ≡ nothing ∷ nothing ∷ nothing ∷ on_connect (1 ∷ 2 ∷ []) ∷ nothing ∷ on_disconnect (3 ∷ []) ∷ []
unfolding run step dispatch signal
one_connection = refl

asking-IsTrying : IsTrying asking
asking-IsTrying = record {
  client = refl;
  unconnected = refl;
  trying = refl;
  attempts = omega arith;
}

run-alternates_example : alternates false (run up_and_down station).0 ≡ true
run-alternates_example = run-alternates up_and_down station (λ e. cc)

run-GivenUp_example : GivenUp (run (rounds (replicate 50 refuses)) asking).1
run-GivenUp_example = run-GivenUp (replicate 50 refuses) asking asking-IsTrying (omega arith)

run-ask_connect_test :
    let (called, c') =
      run
        (other ask_connect
          ∷ round accepts
          ∷ round accepts
          ∷ other got_ip
          ∷ round accepts
          ∷ round accepts
          ∷ [])
        station in
    (called ≡ nothing ∷ nothing ∷ nothing ∷ on_connect (1 ∷ 2 ∷ []) ∷ [])
    × (c'.state ≡ ready)
    × (c'.connected ≡ true)
    × (c'.connect_req ≡ false)
    × (c'.connect_attemps ≡ 0)
run-ask_connect_test = run-ask_connect accepts accepts accepts accepts station refl refl refl

set_from_ap_list-none_test :
    (set_from_ap_list 32 (replicate 32 (97 ∷ [])) (replicate 32 0) ≡ none) ↔ (◌≡◌ {A = ℕ} 32 32)
set_from_ap_list-none_test = set_from_ap_list-none 32 (replicate 32 (97 ∷ [])) (replicate 32 0) refl

abbrev home : Config
home = record { ssid = 104 ∷ 111 ∷ 109 ∷ 101 ∷ replicate 28 0; password = replicate 64 0 }

abbrev long_name : List ℕ
long_name = replicate 33 65

-- A name that is too long takes the old one away.
name_is_lost :
    let (done, c) = set_ap_name long_name 33 home in
    (done ≡ false) × (get_ap_name c ≡ []) × (c.password ≡ home.password)
unfolding set_ap_name
name_is_lost = set_ap_name_lem long_name 33 home (omega arith) (omega arith)

-- A flash that keeps one blob.
abbrev blobs : Blobs (Option ConData)
blobs = record {
  opens = λ n. true;
  set_blob = λ n d. (true, some d);
  commit = λ n. (true, n);
  get_size = λ n. elim n [ none ↦ (true, 0) | some d ↦ (true, 97) ];
  get_blob =
      λ n. elim n [ none ↦ (false, record { ssid = []; password = [] }) | some d ↦ (true, d) ];
}

blobs-IsStore : IsStore blobs
blobs-IsStore = record { is_open = λ n. refl; sets = λ n d. refl; commits = λ n d. (refl, refl) }

-- A new network, with a name of two bytes and a password of one.
abbrev keeper : Keeper (Option ConData)
keeper = record {
  wifi_config = record { ssid = 65 ∷ 66 ∷ 0 ∷ []; password = 67 ∷ 0 ∷ [] };
  wifi_con_data = record { ssid = 0 ∷ []; password = 0 ∷ [] };
  nvs = none;
}

abbrev blank : Config
blank = record { ssid = []; password = [] }

abbrev no_data : ConData
no_data = record { ssid = []; password = [] }

keeper-new :
    (is_changed keeper.wifi_con_data.ssid keeper.wifi_config.ssid
      || is_changed keeper.wifi_con_data.password keeper.wifi_config.password)
    ≡ true
unfolding is_changed
keeper-new = refl

short_ssid : length (c_string keeper.wifi_config.ssid) < 32
unfolding c_string
short_ssid = omega arith

short_password : length (c_string keeper.wifi_config.password) < 64
unfolding c_string
short_password = omega arith

keep-read_example :
    let (found, t) = read_credentials blobs (record {
      wifi_config = blank;
      wifi_con_data = no_data;
      nvs = (keep_credentials blobs keeper).nvs;
    }) in
    (found ≡ true)
    × (c_string t.wifi_config.ssid ≡ c_string keeper.wifi_config.ssid)
    × (c_string t.wifi_config.password ≡ c_string keeper.wifi_config.password)
keep-read_example =
    keep-read blobs blobs-IsStore keeper blank no_data (λ e. absurd (ground (arith, e, keeper-new)))
      short_ssid short_password

abbrev networks : List (List ℕ)
networks = replicate 33 (65 ∷ [])

get_scan_result-none_example :
    (get_scan_result networks (replicate 32 []) ≡ none) ↔ (32 < length networks)
get_scan_result-none_example = get_scan_result-none networks (replicate 32 []) refl
