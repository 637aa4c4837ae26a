-- ===== src/Backend/CmdClientReq/Queue.antt =====
-- backend/cmd_client_req.c: the queue of requests and the memory of a request.
-- A request has a number in place of its address; the clients and the request task are events in
-- the order in which they run. The semaphore of a request is given once its result is there; a
-- client waits for it without a limit. A get and a set have a timeout that is not 0, and so a buffer
-- for the answer; that of a set is looked at whatever the result is, as no error code is below 0.
use hq_components.Prelude.{
  Bool, List, [], if◌then◌else◌, length, ltb, suc, true, ℕ, ◌++◌, ◌==◌, ◌∷◌,
}

-- The calls that make a request: cmdClientSetValueWithoutResp, cmdClientGetValue or
-- cmdClientGetString, and cmdClientSetValue.
pub data Kind : Type 0 where
  without_resp get_request set_request : Kind

-- The memory of a request: given out and queued, answered with whether the result is
-- ERROR_CODE_OK, freed, or still given out when its call has returned, so that nothing frees it.
pub data Memory : Type 0 where
  unused : Memory
  queued : Kind → Memory
  answered : Kind → Bool → Memory
  freed leaked : Memory

-- QUEUE_SIZE
abbrev pub queue_size : ℕ
queue_size = 16

-- The queue and the memory; `task_fault` tells whether the task has taken a request that does not
-- wait for it, such as a freed one, and `client_fault` whether a client has touched freed memory.
pub record Requests : Type 0 where
  pub next : ℕ
  pub queue : List ℕ
  pub memory : ℕ → Memory
  pub task_fault : Bool
  pub client_fault : Bool

abbrev pub change : ℕ → Memory → (ℕ → Memory) → ℕ → Memory
change i m memory k = if k == i then m else memory k

-- _cleanup_msg
unfoldable pub cleanup_msg : ℕ → Requests → Requests
cleanup_msg i r = record r { memory = change i freed r.memory }

-- What the calls do up to the wait: the request is made and queued, or freed when the queue is full.
unfoldable pub post : Kind → Requests → Requests
unfolding cleanup_msg
post kind r =
    let made = record r { next = suc r.next; memory = change r.next (queued kind) r.memory } in
    if ltb (length r.queue) queue_size
    then record made { queue = r.queue ++ (r.next ∷ []) }
    else cleanup_msg r.next made

-- The task with the request that it has taken from the queue.
unfoldable pub serve : Bool → ℕ → Memory → Requests → Requests
serve ok i (queued kind) r = record r { memory = change i (answered kind ok) r.memory }
serve ok i unused r = record r { task_fault = true }
serve ok i (answered kind before) r = record r { task_fault = true }
serve ok i freed r = record r { task_fault = true }
serve ok i leaked r = record r { task_fault = true }

-- A round of _requests_process; `ok` is whether _request_msg_process gives ERROR_CODE_OK.
unfoldable pub task_round : Bool → List ℕ → Requests → Requests
unfolding serve
task_round ok [] r = r
task_round ok (i ∷ queue) r = serve ok i (r.memory i) (record r { queue = queue })

-- cmdClientSetValueWithoutResp behind its wait: the result is read behind the free.
unfoldable pub end_without_resp : ℕ → Requests → Requests
unfolding cleanup_msg
end_without_resp i r = record (cleanup_msg i r) { client_fault = true }

-- cmdClientGetValue and cmdClientGetString behind their wait: a result that is not ERROR_CODE_OK is
-- read behind the free, and every other way out frees last.
unfoldable pub end_get : Bool → ℕ → Requests → Requests
unfolding cleanup_msg
end_get ok i r = if ok then cleanup_msg i r else record (cleanup_msg i r) { client_fault = true }

-- cmdClientSetValue behind its wait; `positive` says whether the answer is the one that is waited
-- for, with POSITIVE_RESP, where the call returns without _cleanup_msg. So does its test for a
-- result below 0, which no error code meets.
unfoldable pub end_set : Bool → ℕ → Requests → Requests
unfolding cleanup_msg
end_set positive i r =
    if positive then record r { memory = change i leaked r.memory } else cleanup_msg i r

-- What the calls do behind the wait for the semaphore; before it is given, a client waits.
unfoldable pub woken : Bool → ℕ → Memory → Requests → Requests
unfolding end_without_resp end_get end_set
woken positive i unused r = r
woken positive i (queued kind) r = r
woken positive i freed r = r
woken positive i leaked r = r
woken positive i (answered without_resp ok) r = end_without_resp i r
woken positive i (answered get_request ok) r = end_get ok i r
woken positive i (answered set_request ok) r = end_set positive i r

pub data Event : Type 0 where
  posts : Kind → Event
  serves : Bool → Event
  wakes : (positive : Bool) (request : ℕ) → Event

unfoldable pub run : List Event → Requests → Requests
unfolding post task_round woken
run [] r = r
run (posts kind ∷ es) r = run es (post kind r)
run (serves ok ∷ es) r = run es (task_round ok r.queue r)
run (wakes positive i ∷ es) r = run es (woken positive i (r.memory i) r)
