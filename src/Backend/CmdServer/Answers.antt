-- ===== src/Backend/CmdServer/Answers.antt =====
-- backend/cmd_server.c: a request of the server's, and the answer that another task hands over.
-- `mutex_free` and `answered` are the two semaphores mutexSemaphore and waitResponseSem.
use hq_components.Prelude.{
  Bool, List, Option, [], ap, arith, false, get_or, if◌then◌else◌, le_word, leb, length, ltb, none,
  not, refl, some, sym, take, true, u8, write_at, ℕ, ◌&&◌, ◌==◌, ◌||◌, ◌∙◌, ◌∷◌, ◌≡◌, ◌≢◌,
}
use hq_components.Backend.Frame.{cmd_request, pc_get_uint32}
use hq_components.Backend.Parameters.{Parameter, Store, last_value, set_value}
use hq_components.Backend.CmdServer.{Ctx}
use hq_components.Backend.CmdServer.Api.{send_data}

-- The members of cmd_server_t that an answer goes through.
pub record Answer : Type 0 where
  pub mutex_free : Bool
  pub answered : Bool
  pub responce_buff : List ℕ
  pub responce_buff_len : ℕ

-- cmdServerAnswerData; `none` is a NULL pointer.
unfoldable pub answer_data : Option (List ℕ) → Answer → Bool × Answer
answer_data none x = (false, x)
answer_data (some buff) x =
    if ltb (length x.responce_buff) x.responce_buff_len then (false, x) else (
      true,
      record x {
        responce_buff = write_at x.responce_buff 0 (take x.responce_buff_len buff);
        answered = true;
      },
    )

-- The answers that come while a request waits.
unfoldable pub arrive : List (Option (List ℕ)) → Answer → Answer
unfolding answer_data
arrive [] x = x
arrive (a ∷ answers) x = arrive answers (answer_data a x).1

-- What cmdServerGetValue leaves: the result, the caller's variable, and the shared state.
pub record Got : Type 0 where
  pub done : Bool
  pub value : ℕ
  pub out : List (List ℕ)
  pub answer : Answer
  pub store : Store

module _ (project : List Parameter) where
  -- cmdServerGetValue after the response has been taken. The variable's old value is stored.
  unfoldable pub take_value : ℕ → ℕ → List (List ℕ) → Answer → Store → Got
  take_value val value out x s =
      let freed : Answer = record x { mutex_free = true; answered = false } in
      let cleared : Answer = record freed { responce_buff_len = 0 } in
      let buff = x.responce_buff in
      if not (get_or buff 2 0 == pc_get_uint32)
      then record { done = false; value = value; out = out; answer = freed; store = s }
      else (let (done, t) = set_value project val value s in
          if not done
          then record { done = false; value = value; out = out; answer = cleared; store = t }
          else record {
            done = true;
            value = le_word (get_or buff 0 0) (get_or buff 1 0) (get_or buff 2 0) (get_or buff 3 0);
            out = out;
            answer = cleared;
            store = t;
          })

  -- cmdServerGetValue with a variable to write to. `in_time` is whether the mutex, if it is free,
  -- is obtained, and `answers` what comes in while the call waits.
  unfoldable pub get_value :
      Bool → List (Option (List ℕ)) → Option ℕ → ℕ → ℕ → Ctx → Answer → Store → Got
  unfolding arrive take_value send_data
  get_value in_time answers sent val value c x s =
      if leb (last_value project) val || not (in_time && x.mutex_free)
      then record { done = false; value = value; out = []; answer = x; store = s }
      else (let frame : List ℕ = 4 ∷ cmd_request ∷ pc_get_uint32 ∷ u8 val ∷ [] in
          let out = (send_data sent frame c).1 in
          let waited = arrive answers (record x { mutex_free = false; answered = false }) in
          if waited.answered then take_value val value out waited s else record {
            done = false;
            value = value;
            out = out;
            answer = record waited { mutex_free = true };
            store = s;
          })

  answer_data-lost :
      (a : Option (List ℕ)) (x : Answer)
      → x.responce_buff_len ≡ 0
      → let y = (answer_data a x).1 in
        (y.responce_buff ≡ x.responce_buff)
        × (y.responce_buff_len ≡ 0)
        × (y.mutex_free ≡ x.mutex_free)
  unfolding answer_data
  answer_data-lost none x z = (refl, z, refl)
  answer_data-lost (some buff) x z =
      let same : write_at x.responce_buff 0 (take x.responce_buff_len buff) ≡ x.responce_buff =
        ap (λ n. write_at x.responce_buff 0 (take n buff)) z in
      (ground (arith, same), ground arith, ground arith)

  arrive-lost :
      (answers : List (Option (List ℕ))) (x : Answer)
      → x.responce_buff_len ≡ 0
      → let y = arrive answers x in
        (y.responce_buff ≡ x.responce_buff)
        × (y.responce_buff_len ≡ 0)
        × (y.mutex_free ≡ x.mutex_free)
  unfolding arrive
  arrive-lost [] x z = (refl, z, refl)
  arrive-lost (a ∷ answers) x z =
      let one = answer_data-lost a x z in
      let rest = arrive-lost answers (answer_data a x).1 one.1 in
      (rest.0 ∙ one.0, rest.1, rest.2 ∙ one.2)

  take_value-other :
      (val value : ℕ) (out : List (List ℕ)) (x : Answer) (s : Store)
      → get_or x.responce_buff 2 0 ≢ 2
      → take_value val value out x s ≡ record {
        done = false;
        value = value;
        out = out;
        answer = record x { mutex_free = true; answered = false };
        store = s;
      }
  unfolding take_value
  take_value-other val value out x s n = ground arith

  -- With the length of the response at 0, where it starts and always stays, and a buffer whose third
  -- byte is not that of the request, as at the start, cmdServerGetValue gives false whatever
  -- answers are handed over while it waits: they are not copied. Nothing is stored, the caller's
  -- variable is untouched, the mutex is as before, and the next call finds the same.
  pub get_value-lost :
      (in_time : Bool) (answers : List (Option (List ℕ))) (sent : Option ℕ) (val value : ℕ)
      (c : Ctx) (x : Answer) (s : Store)
      → x.responce_buff_len ≡ 0
      → get_or x.responce_buff 2 0 ≢ 2
      → let got = get_value in_time answers sent val value c x s in
        (got.done ≡ false)
        × (got.value ≡ value)
        × (got.store ≡ s)
        × (got.answer.responce_buff ≡ x.responce_buff)
        × (got.answer.responce_buff_len ≡ 0)
        × (got.answer.mutex_free ≡ x.mutex_free)
  unfolding get_value
  get_value-lost in_time answers sent val value c x s z n =
      let started : Answer = record x { mutex_free = false; answered = false } in
      let waited = arrive answers started in
      let lost = arrive-lost answers started z in
      let frame : List ℕ = 4 ∷ cmd_request ∷ pc_get_uint32 ∷ u8 val ∷ [] in
      let other : get_or waited.responce_buff 2 0 ≢ 2 =
        λ e. n (ap (λ b. get_or b 2 0) (sym lost.0) ∙ e) in
      let taken = take_value-other val value (send_data sent frame c).1 waited s other in
      ground (arith, lost.0, lost.1, taken)
