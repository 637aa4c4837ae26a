-- ===== src/Backend/CmdClientReq/Memory.antt =====
-- The memory of requests under any order of clients and task.
use hq_components.Prelude.{
  Bool, Bool-cases, List, [], ap, arith, false, inl, inr, length, ltb, refl, suc, true, ℕ, ◌++◌,
  ◌<◌, ◌==◌, ◌∷◌, ◌≡◌, ◌≢◌, ◌≤◌,
}
use hq_components.Backend.CmdClientReq.Queue.{
  Kind, without_resp, get_request, set_request, Memory, unused, queued, answered, freed, leaked,
  Requests, change, cleanup_msg, post, serve, task_round, end_without_resp, end_get, end_set, woken,
  Event, posts, serves, wakes, run,
}

abbrev pub is_queued : Memory → Bool
is_queued unused = false
is_queued (queued kind) = true
is_queued (answered kind ok) = false
is_queued freed = false
is_queued leaked = false

-- The requests in the queue are in the order of their numbers, from `low` to below `next`, and the
-- memory of each is still given out.
abbrev pub Waiting : (ℕ → Memory) → ℕ → ℕ → List ℕ → Type 0
Waiting memory next low [] = low ≤ next
Waiting memory next low (i ∷ queue) =
    (low ≤ i) × (is_queued (memory i) ≡ true) × Waiting memory next (suc i) queue

abbrev Apart : ℕ → List ℕ → Type 0
Apart i [] = Unit {0}
Apart i (k ∷ queue) = (k ≢ i) × Apart i queue

change-Waiting :
    (memory : ℕ → Memory) (i : ℕ) (m : Memory) (next low : ℕ) (queue : List ℕ)
    → Apart i queue
    → Waiting memory next low queue
    → Waiting (change i m memory) next low queue
change-Waiting memory i m next low [] a w = w
change-Waiting memory i m next low (k ∷ queue) (ne, a) (l, q, w) =
    let other : (k == i) ≡ false = ground (arith, ne) in
    (l, rw other q, change-Waiting memory i m next (suc k) queue a w)

low-Apart :
    (memory : ℕ → Memory) (i next low : ℕ) (queue : List ℕ)
    → i < low
    → Waiting memory next low queue
    → Apart i queue
low-Apart memory i next low [] h w = tt
low-Apart memory i next low (k ∷ queue) h (l, q, w) =
    (omega arith, low-Apart memory i next (suc k) queue (omega arith) w)

low-next :
    (memory : ℕ → Memory) (next low : ℕ) (queue : List ℕ)
    → Waiting memory next low queue
    → low ≤ next
low-next memory next low [] w = w
low-next memory next low (k ∷ queue) (l, q, w) = omega (arith, low-next memory next (suc k) queue w)

next-Apart :
    (memory : ℕ → Memory) (next low : ℕ) (queue : List ℕ)
    → Waiting memory next low queue
    → Apart next queue
next-Apart memory next low [] w = tt
next-Apart memory next low (k ∷ queue) (l, q, w) =
    (omega (arith, low-next memory next (suc k) queue w), next-Apart memory next (suc k) queue w)

done-Apart :
    (memory : ℕ → Memory) (i next low : ℕ) (queue : List ℕ)
    → is_queued (memory i) ≡ false
    → Waiting memory next low queue
    → Apart i queue
done-Apart memory i next low [] e w = tt
done-Apart memory i next low (k ∷ queue) e (l, q, w) = (
  λ same. absurd (ground (arith, e, q, ap (λ n. is_queued (memory n)) same)),
  done-Apart memory i next (suc k) queue e w,
)

later-Waiting :
    (memory : ℕ → Memory) (next low : ℕ) (queue : List ℕ)
    → Waiting memory next low queue
    → Waiting memory (suc next) low queue
later-Waiting memory next low [] w = omega arith
later-Waiting memory next low (k ∷ queue) (l, q, w) =
    (l, q, later-Waiting memory next (suc k) queue w)

append-Waiting :
    (memory : ℕ → Memory) (next low : ℕ) (queue : List ℕ)
    → is_queued (memory next) ≡ true
    → Waiting memory next low queue
    → Waiting memory (suc next) low (queue ++ (next ∷ []))
append-Waiting memory next low [] n w = (w, n, omega arith)
append-Waiting memory next low (k ∷ queue) n (l, q, w) =
    (l, q, append-Waiting memory next (suc k) queue n w)

-- The invariant: the queue holds living requests, each once, and the task has touched no freed one.
pub record IsSafe (r : Requests) : Type 0 where
  pub waiting : Waiting r.memory r.next 0 r.queue
  pub task : r.task_fault ≡ false

post-IsSafe : (kind : Kind) (r : Requests) → IsSafe r → IsSafe (post kind r)
unfolding post cleanup_msg
post-IsSafe kind r s =
    let apart = next-Apart r.memory r.next 0 r.queue s.waiting in
    let made = change-Waiting r.memory r.next (queued kind) r.next 0 r.queue apart s.waiting in
    let given = change r.next (queued kind) r.memory in
    let there : is_queued (given r.next) ≡ true = ground arith in
    elim (Bool-cases (ltb (length r.queue) 16)) [
      | inl t ↦
          rw t
            (record { waiting = append-Waiting given r.next 0 r.queue there made; task = s.task })
      | inr f ↦
          let again = change-Waiting given r.next freed r.next 0 r.queue apart made in
          rw f (record {
            waiting = later-Waiting (change r.next freed given) r.next 0 r.queue again;
            task = s.task;
          })
    ]

earlier-Waiting :
    (memory : ℕ → Memory) (next low : ℕ) (queue : List ℕ)
    → Waiting memory next low queue
    → Waiting memory next 0 queue
earlier-Waiting memory next low [] w = omega arith
earlier-Waiting memory next low (k ∷ queue) (l, q, w) = (omega arith, q, w)

serve-IsSafe :
    (ok : Bool) (i : ℕ) (m : Memory) (r : Requests)
    → is_queued m ≡ true
    → Apart i r.queue
    → IsSafe r
    → IsSafe (serve ok i m r)
unfolding serve
serve-IsSafe ok i unused r e a s = absurd (ground (arith, e))
serve-IsSafe ok i freed r e a s = absurd (ground (arith, e))
serve-IsSafe ok i leaked r e a s = absurd (ground (arith, e))
serve-IsSafe ok i (answered kind before) r e a s = absurd (ground (arith, e))
serve-IsSafe ok i (queued kind) r e a s = record {
  waiting = change-Waiting r.memory i (answered kind ok) r.next 0 r.queue a s.waiting;
  task = s.task;
}

served-IsSafe :
    (ok : Bool) (queue : List ℕ) (r : Requests)
    → Waiting r.memory r.next 0 queue
    → IsSafe r
    → IsSafe (task_round ok queue r)
unfolding task_round
served-IsSafe ok [] r w s = s
served-IsSafe ok (i ∷ queue) r (l, q, w) s =
    serve-IsSafe ok i (r.memory i) (record r { queue = queue }) q
      (low-Apart r.memory i r.next (suc i) queue (omega arith) w)
      (record { waiting = earlier-Waiting r.memory r.next (suc i) queue w; task = s.task })

-- The call of a request that is not in the queue may put its memory into any state.
change-IsSafe :
    (i : ℕ) (m : Memory) (fault : Bool) (r : Requests)
    → is_queued (r.memory i) ≡ false
    → IsSafe r
    → IsSafe (record r { memory = change i m r.memory; client_fault = fault })
change-IsSafe i m fault r e s = record {
  waiting =
      change-Waiting r.memory i m r.next 0 r.queue
        (done-Apart r.memory i r.next 0 r.queue e s.waiting) s.waiting;
  task = s.task;
}

woken-IsSafe :
    (positive : Bool) (i : ℕ) (m : Memory) (r : Requests)
    → r.memory i ≡ m
    → IsSafe r
    → IsSafe (woken positive i m r)
unfolding woken end_without_resp end_get end_set cleanup_msg
woken-IsSafe positive i unused r e s = s
woken-IsSafe positive i (queued kind) r e s = s
woken-IsSafe positive i freed r e s = s
woken-IsSafe positive i leaked r e s = s
woken-IsSafe positive i (answered without_resp ok) r e s =
    change-IsSafe i freed true r (ap is_queued e) s
woken-IsSafe positive i (answered get_request true) r e s =
    change-IsSafe i freed r.client_fault r (ap is_queued e) s
woken-IsSafe positive i (answered get_request false) r e s =
    change-IsSafe i freed true r (ap is_queued e) s
woken-IsSafe true i (answered set_request ok) r e s =
    change-IsSafe i leaked r.client_fault r (ap is_queued e) s
woken-IsSafe false i (answered set_request ok) r e s =
    change-IsSafe i freed r.client_fault r (ap is_queued e) s

-- Whatever the order in which clients post requests and wake up and the task serves them, and
-- whatever the answers are, the queue holds only requests whose memory is given out and that wait to
-- be served, each once and the oldest first, and the task never takes a request that was freed. A
-- call that frees its request too early or never does not disturb the queue.
pub run-IsSafe : (es : List Event) (r : Requests) → IsSafe r → IsSafe (run es r)
unfolding run
run-IsSafe [] r s = s
run-IsSafe (posts kind ∷ es) r s = run-IsSafe es (post kind r) (post-IsSafe kind r s)
run-IsSafe (serves ok ∷ es) r s =
    run-IsSafe es (task_round ok r.queue r) (served-IsSafe ok r.queue r s.waiting s)
run-IsSafe (wakes positive i ∷ es) r s =
    run-IsSafe es (woken positive i (r.memory i) r) (woken-IsSafe positive i (r.memory i) r refl s)
