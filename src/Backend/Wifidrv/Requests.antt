-- ===== src/Backend/Wifidrv/Requests.antt =====
-- backend/wifidrv.c: the requests of the other tasks with their results, the scan and the queries.
use hq_components.Prelude.{
  Bool, Bool-cases, List, Option, Option-cases, [], arith, false, get_elem?, get_elem?-eq-get_or,
  inl, inr, length, length-write_at, ltb, ltb→le, ltb→lt, none, not, refl, some, suc, take, true,
  write_at, zero, ℕ, ◌&&◌, ◌+◌, ◌<◌, ◌>>=◌, ◌↔◌, ◌∙◌, ◌∷◌, ◌≡◌, ◌≢◌, ◌≤◌,
}
use hq_components.Backend.Parameters.{c_string}
use hq_components.Backend.Wifidrv.Scan.{get_elem?-past}
use hq_components.Backend.Wifidrv.{
  State, init, idle, connect, wait_connect, scan, start, stop, ready, deinit, Ctx, ask_connect,
  ask_disconnect, start_scan, signal, add_to_list,
}

-- DEFAULT_SCAN_LIST_SIZE
abbrev pub scan_list_size : ℕ
scan_list_size = 32

-- wifiDrvIsReadyToScan
unfoldable pub is_ready_to_scan : Ctx → Bool
is_ready_to_scan c = is_ready c.state
  where
    is_ready : State → Bool
    is_ready init = false
    is_ready idle = true
    is_ready connect = false
    is_ready wait_connect = false
    is_ready scan = false
    is_ready start = false
    is_ready stop = false
    is_ready ready = true
    is_ready deinit = false

-- wifiDrvReadyToConnect
unfoldable pub ready_to_connect : Ctx → Bool
ready_to_connect c = elim c.state [ State.idle ↦ true | _ ↦ false ]

-- wifiDrvTryingConnect
unfoldable pub trying_connect : Ctx → Bool
trying_connect c = elim c.state [ State.wait_connect ↦ true | State.connect ↦ true | _ ↦ false ]

-- wifiDrvConnect
unfoldable pub request_connect : Ctx → Bool × Ctx
unfolding signal
request_connect c = (not c.is_server, signal ask_connect c)

-- wifiDrvDisconnect
unfoldable pub request_disconnect : Ctx → Bool × Ctx
unfolding signal
request_disconnect c = (not c.is_server, signal ask_disconnect c)

-- wifiDrvStartScan; `starts` says whether esp_wifi_scan_start gives ESP_OK.
unfoldable pub request_scan : Bool → Ctx → Bool × Ctx
unfolding signal is_ready_to_scan
request_scan starts c = (is_ready_to_scan c && starts, signal start_scan c)

-- The loop of wifiDrvGetScanResult over `n` records from `i` on: whether all lie in the list.
unfoldable pub read_records : ℕ → ℕ → List (List ℕ) → Option (List (List ℕ))
read_records zero i scan_list = some []
read_records (suc n) i scan_list =
    let rest = read_records n (i + 1) scan_list in
    get_elem? scan_list i >>= λ record_i. rest >>= λ records. some (record_i ∷ records)

-- wifiDrvGetScanResult: the names that are logged, `none` for a read behind the list. The library
-- fills the list with the first of the networks it has found.
unfoldable pub get_scan_result : List (List ℕ) → List (List ℕ) → Option (List (List ℕ))
unfolding read_records
get_scan_result found scan_list =
    read_records (length found) 0 (write_at scan_list 0 (take scan_list_size found))

-- wifiDrvGetNameFromScannedList
unfoldable pub get_name_from_scanned_list : ℕ → List (List ℕ) → Option (List ℕ)
unfolding c_string
get_name_from_scanned_list number scan_list =
    get_elem? scan_list number >>= λ ssid. some (c_string ssid)

-- wifiDrvInit, as far as it goes without the task.
unfoldable pub wifi_init : Ctx → Ctx
wifi_init c = record c { on_connect_cb = []; on_disconnect_cb = [] }

-- wifiDrvSetWifiType
unfoldable pub set_wifi_type : Bool → Ctx → Ctx
set_wifi_type is_server c = record c { is_server = is_server }

-- wifiDrvRegisterConnectCb
unfoldable pub register_connect_cb : ℕ → Ctx → Option Ctx
unfolding add_to_list
register_connect_cb cb c =
    add_to_list cb c.on_connect_cb >>= λ list. some (record c { on_connect_cb = list })

-- wifiDrvRegisterDisconnectCb
unfoldable pub register_disconnect_cb : ℕ → Ctx → Option Ctx
unfolding add_to_list
register_disconnect_cb cb c =
    add_to_list cb c.on_disconnect_cb >>= λ list. some (record c { on_disconnect_cb = list })

read_records-past :
    (n i : ℕ) (xs : List (List ℕ)) → length xs < i + n → 0 < n → read_records n i xs ≡ none
unfolding read_records
read_records-past zero i xs l z = absurd (omega arith)
read_records-past (suc n) i xs l z = elim (Bool-cases (ltb i (length xs))) [
  | inr g ↦ rw (get_elem?-past xs i (ltb→le i (length xs) g)) refl
  | inl h ↦
      let less = ltb→lt i (length xs) h in
      rw
        (
          get_elem?-eq-get_or xs i [] less,
          read_records-past n (i + 1) xs (omega arith) (omega arith),
        )
        refl
]

read_records-fits : (n i : ℕ) (xs : List (List ℕ)) → i + n ≤ length xs → read_records n i xs ≢ none
unfolding read_records
read_records-fits zero i xs l e = absurd (ground (arith, e))
read_records-fits (suc n) i xs l e = elim (Option-cases (read_records n (i + 1) xs)) [
  | inl nothing ↦ read_records-fits n (i + 1) xs (omega arith) nothing
  | inr (rest, found) ↦
      let first = get_elem?-eq-get_or xs i [] (omega arith) in
      absurd (ground (arith, e, found, first))
]

-- wifiDrvGetScanResult reads behind its list of 32 networks exactly when more networks than that
-- were found: the loop runs to the number found, not to the number that was written.
pub get_scan_result-none :
    (found scan_list : List (List ℕ))
    → length scan_list ≡ 32
    → (get_scan_result found scan_list ≡ none) ↔ (32 < length found)
unfolding get_scan_result
get_scan_result-none found scan_list l =
    let list = write_at scan_list 0 (take 32 found) in
    let sized : length list ≡ 32 = length-write_at scan_list 0 (take 32 found) ∙ l in
    (
      λ e. elim (Bool-cases (ltb 32 (length found))) [
        | inl t ↦ ltb→lt 32 (length found) t
        | inr f ↦
            let few = ltb→le 32 (length found) f in
            absurd (read_records-fits (length found) 0 list (omega (arith, sized, few)) e)
      ],
      λ more. read_records-past (length found) 0 list (omega (arith, sized, more)) (omega arith),
    )
