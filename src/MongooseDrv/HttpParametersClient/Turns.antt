-- ===== src/MongooseDrv/HttpParametersClient/Turns.antt =====
-- The task serves its requests.
use hq_components.Prelude.{
  Bool, Bool-cases, List, [], ap, append-nil, append_assoc, false, if◌then◌else◌, inl, inr, map,
  refl, replicate, suc, sym, true, zero, ℕ, ◌++◌, ◌∙◌, ◌∷◌, ◌≡◌,
}
use hq_components.MongooseDrv.HttpParametersClient.Task.{
  Report, quiet, message, closed, Task, fn_task, poll, through, take_mutex, poll_until_done,
  serve_request, then_serve, serve_all,
}

-- A request: polls with nothing of interest, their reports counted, and a last poll that closes the
-- connection, behind an answer or without one.
pub record Served : Type 0 where
  pub request : ℕ
  pub before : List ℕ
  pub answered : Bool

abbrev pub last_poll : Served → List Report
last_poll x =
    if x.answered then message x.request ∷ closed x.request ∷ [] else closed x.request ∷ []

abbrev pub quiet_polls : List ℕ → List (List Report)
quiet_polls [] = []
quiet_polls (n ∷ ns) = replicate n quiet ∷ quiet_polls ns

abbrev pub polls_of : Served → List (List Report)
polls_of x = quiet_polls x.before ++ (last_poll x ∷ [])

poll-quiet : (n : ℕ) (t : Task) → poll (replicate n quiet) t ≡ t
unfolding poll fn_task
poll-quiet zero t = refl
poll-quiet (suc n) t = poll-quiet n t

poll-last :
    (x : Served) (t : Task)
    → poll (last_poll x) t
      ≡ record { done = true; mutex = true; ended = t.ended ++ (x.request ∷ []) }
unfolding poll fn_task
poll-last x t = elim (Bool-cases x.answered) [ inl a ↦ rw a refl | inr a ↦ rw a refl ]

until-last :
    (x : Served) (ns : List ℕ) (t : Task)
    → poll_until_done (quiet_polls ns ++ (last_poll x ∷ [])) (record t { done = false })
      ≡ through (record { done = true; mutex = false; ended = t.ended ++ (x.request ∷ []) })
unfolding poll_until_done take_mutex
until-last x [] t = rw (poll-last x (record t { done = false })) refl
until-last x (n ∷ ns) t = rw (poll-quiet n (record t { done = false })) (until-last x ns t)

serve_all-next :
    (x : Served) (rest : List (List (List Report))) (t : Task)
    → serve_all (polls_of x ∷ rest) t
      ≡ serve_all rest (record { done = true; mutex = false; ended = t.ended ++ (x.request ∷ []) })
unfolding serve_all serve_request
serve_all-next x rest t = ap (λ u. then_serve u (serve_all rest)) (until-last x x.before t)

serve_all-none : (t : Task) → serve_all [] t ≡ through t
unfolding serve_all
serve_all-none t = refl

-- When mongoose reports the close of a connection in the poll that brought its answer, or a close
-- alone, the task serves any list of requests without waiting forever, and each request is ended
-- exactly once, in their order.
pub serve_all-ended :
    (xs : List Served) (t : Task)
    → (after : Task) × (serve_all (map polls_of xs) t ≡ through after)
      × (after.ended ≡ t.ended ++ map (λ (x : Served). x.request) xs)
serve_all-ended [] t = (t, serve_all-none t, sym (append-nil t.ended))
serve_all-ended (x ∷ xs) t =
    let next : Task = record { done = true; mutex = false; ended = t.ended ++ (x.request ∷ []) } in
    let (after, turn, ended) = serve_all-ended xs next in
    (
      after,
      serve_all-next x (map polls_of xs) t ∙ turn,
      ended ∙ append_assoc t.ended (x.request ∷ []) (map (λ (x : Served). x.request) xs),
    )
