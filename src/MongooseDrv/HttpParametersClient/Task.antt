-- ===== src/MongooseDrv/HttpParametersClient/Task.antt =====
-- mongoose_drv/http_parameters_client.c: the task that takes the requests from their queue.
-- The queue holds numbers of requests. What mongoose reports in a poll is a list: an answer or the
-- close of the connection of a request, or something that does not change `done`. What fn does to
-- the request itself is on_event of the parent. A turn without a request only puts the ping of the
-- parent into the queue.
use hq_components.Prelude.{Bool, List, [], false, if◌then◌else◌, true, ℕ, ◌++◌, ◌∷◌}

pub data Report : Type 0 where
  quiet : Report
  message closed : (request : ℕ) → Report

-- `done` and `mutex`, with the requests whose semaphores were given or whose copies were freed.
pub record Task : Type 0 where
  pub done : Bool
  pub mutex : Bool
  pub ended : List ℕ

-- The part of fn that the task waits for.
unfoldable pub fn_task : Report → Task → Task
fn_task quiet t = t
fn_task (message i) t = record t { done = true }
fn_task (closed i) t = record { done = true; mutex = true; ended = t.ended ++ (i ∷ []) }

-- mg_mgr_poll
unfoldable pub poll : List Report → Task → Task
unfolding fn_task
poll [] t = t
poll (e ∷ es) t = poll es (fn_task e t)

-- A turn of the task: it is through, it waits for `done` when no more polls are given, or it waits
-- for the mutex, which only its own polls give.
pub data Turn : Type 0 where
  through : Task → Turn
  waits_done waits_mutex : Turn

-- xSemaphoreTake of the mutex
unfoldable pub take_mutex : Task → Turn
take_mutex t = if t.mutex then through (record t { mutex = false }) else waits_mutex

-- `while ( !done ) mg_mgr_poll`, and the mutex
unfoldable pub poll_until_done : List (List Report) → Task → Turn
unfolding poll take_mutex
poll_until_done [] t = waits_done
poll_until_done (es ∷ polls) t =
    let after = poll es t in
    let rest = poll_until_done polls after in if after.done then take_mutex after else rest

-- One request of _task, with the polls that it makes.
unfoldable pub serve_request : List (List Report) → Task → Turn
unfolding poll_until_done
serve_request polls t = poll_until_done polls (record t { done = false })

abbrev pub then_serve : Turn → (Task → Turn) → Turn
then_serve (through t) f = f t
then_serve waits_done f = waits_done
then_serve waits_mutex f = waits_mutex

-- _task, over the polls of one request after the other
unfoldable pub serve_all : List (List (List Report)) → Task → Turn
unfolding serve_request
serve_all [] t = through t
serve_all (polls ∷ requests) t = then_serve (serve_request polls t) (serve_all requests)
