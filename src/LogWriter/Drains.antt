-- ===== src/LogWriter/Drains.antt =====
-- Whatever the threads' steps, accepted requests reach the storage once each and in their order, and
-- a stopped writer drains.
use tracebox.Prelude.{
  ℕ, zero, suc, ◌+◌, ◌*◌, ◌<◌, ◌≤◌, ◌≡◌, refl, sym, ap, ◌∙◌, Bool, true, false, List, [], ◌∷◌, ◌++◌,
  append_assoc, arith, length, inl, inr, ◌⊎◌, subst, if◌then◌else◌,
}
use tracebox.StreamWriter.{LogRequest}
use tracebox.LogWriter.{
  LogWriter, Worker, waits, holds, ended, System, start, add, stop, wait, blocked, finished,
  take_front, pending, held, waited, work, work_on, work_for, Step, accepts, refuses, stops, works,
  Reach, here, next,
}

module _ {S : Type 0} (store : S → LogRequest → S) where
  -- Writing a list of requests in turn.
  abbrev pub store_all : S → List LogRequest → S
  store_all s [] = s
  store_all s (r ∷ rs) = store_all (store s r) rs

  store_all-append :
      (s : S) (xs ys : List LogRequest) → store_all s (xs ++ ys) ≡ store_all (store_all s xs) ys
  store_all-append s [] ys = refl
  store_all-append s (x ∷ xs) ys = store_all-append (store s x) xs ys

  -- What the storage will hold once the worker has caught up.
  abbrev pub outcome : System S → S
  outcome s = store_all s.storage (pending s)

  -- The worker has left its loop only if the writer is stopping and nothing is left.
  abbrev pub IsEnd : LogWriter → Worker → Type 0
  IsEnd w waits = Unit
  IsEnd w (holds r) = Unit
  IsEnd w ended = (w.stopping ≡ true) × (w.queue ≡ [])

  wait-outcome :
      (w : LogWriter) (q : List LogRequest) (s : S)
      → let t =
          waited
            (record { writer = record w { queue = q }; worker = waits; storage = s })
            (take_front (record w { queue = q }) q) in
        (outcome t ≡ store_all s q) × IsEnd t.writer t.worker
  wait-outcome w (r ∷ rs) s = (refl, tt)
  wait-outcome w [] s = by_test w.stopping refl
    where
      by_test :
          (b : Bool)
          → w.stopping ≡ b
          → let t =
              waited
                (record { writer = record w { queue = [] }; worker = waits; storage = s })
                (if b then finished else blocked) in
            (outcome t ≡ s) × IsEnd t.writer t.worker
      by_test true e = (refl, (e, refl))
      by_test false e = (refl, tt)

  work-outcome :
      (s : System S)
      → IsEnd s.writer s.worker
      → (outcome (work store s) ≡ outcome s) × IsEnd (work store s).writer (work store s).worker
  unfolding work wait
  work-outcome s v = by_worker s.worker v
    where
      by_worker :
          (k : Worker)
          → IsEnd s.writer k
          → let s' : System S = record s { worker = k } in
            (outcome (work_on store s' k) ≡ outcome s')
            × IsEnd (work_on store s' k).writer (work_on store s' k).worker
      by_worker waits v = wait-outcome s.writer s.writer.queue s.storage
      by_worker (holds r) v = (refl, tt)
      by_worker ended v = (refl, v)

  module _ (w : LogWriter) (request : LogRequest) where
    add-accepted :
        (add w request).1 ≡ true
        → ((add w request).0 ≡ record w { queue = w.queue ++ request ∷ [] }) × (w.stopping ≡ false)
    unfolding add
    add-accepted h = ground arith

    add-refused : (add w request).1 ≡ false → (add w request).0 ≡ w
    unfolding add
    add-refused h = ground arith

  still_running : (k : Worker) (w w' : LogWriter) → w.stopping ≡ false → IsEnd w k → IsEnd w' k
  still_running waits w w' e v = tt
  still_running (holds r) w w' e v = tt
  still_running ended w w' e v = cc v.0

  stopped-IsEnd : (k : Worker) (w : LogWriter) → IsEnd w k → IsEnd (record w { stopping = true }) k
  stopped-IsEnd waits w v = tt
  stopped-IsEnd (holds r) w v = tt
  stopped-IsEnd ended w v = (refl, v.1)

  Step-outcome :
      {s t : System S} {more : List LogRequest}
      → Step store s t more
      → IsEnd s.writer s.worker
      → (outcome t ≡ store_all (outcome s) more) × IsEnd t.writer t.worker
  unfolding stop
  Step-outcome {s = s} (accepts request yes_) v =
      let q = add-accepted s.writer request yes_ in
      subst
        (λ w. (outcome (record s { writer = w }) ≡ store (outcome s) request) × IsEnd w s.worker)
        (sym q.0)
        (
          ap (store_all s.storage)
                (sym (append_assoc (held s.worker) s.writer.queue (request ∷ [])))
              ∙ store_all-append s.storage (pending s) (request ∷ []),
          still_running s.worker s.writer _ q.1 v,
        )
  Step-outcome {s = s} (refuses request not_) v =
      subst (λ w. (outcome (record s { writer = w }) ≡ outcome s) × IsEnd w s.worker)
        (sym (add-refused s.writer request not_)) (refl, v)
  Step-outcome {s = s} stops v = (refl, stopped-IsEnd s.worker s.writer v)
  Step-outcome {s = s} works v = work-outcome s v

  Reach-outcome :
      {s t : System S} {accepted : List LogRequest}
      → Reach store s t accepted
      → IsEnd s.writer s.worker
      → (outcome t ≡ store_all (outcome s) accepted) × IsEnd t.writer t.worker
  Reach-outcome here v = (refl, v)
  Reach-outcome {s = s} (next {accepted = accepted} {more = more} r st) v =
      let before = Reach-outcome r v in
      let step = Step-outcome st before.1 in
      (
        step.0
            ∙ ap (λ o. store_all o more) before.0
            ∙ sym (store_all-append (outcome s) accepted more),
        step.1,
      )

  -- In every state that the threads can reach, by any interleaving of their steps, writing what is
  -- still pending into the storage makes of it what writing all accepted requests in the order of
  -- their acceptance makes of the first storage.
  pub Reach-start :
      (s0 : S) {t : System S} {accepted : List LogRequest}
      → Reach store (start s0) t accepted
      → store_all t.storage (pending t) ≡ store_all s0 accepted
  unfolding start
  Reach-start s0 r = (Reach-outcome r tt).0

  -- In every state that the threads can reach in which the worker has ended, the writer is
  -- stopping, and the storage is what writing all accepted requests in the order of their
  -- acceptance makes of it.
  pub Reach-ended :
      (s0 : S) {t : System S} {accepted : List LogRequest}
      → Reach store (start s0) t accepted
      → t.worker ≡ ended
      → (t.writer.stopping ≡ true) × (t.storage ≡ store_all s0 accepted)
  unfolding start
  Reach-ended s0 {t} {accepted} r e =
      let v : IsEnd t.writer ended = subst (IsEnd t.writer) e (Reach-outcome r tt).1 in
      (v.0, emptied v ∙ Reach-start s0 r)
    where
      emptied : IsEnd t.writer ended → t.storage ≡ store_all t.storage (pending t)
      emptied v = sym (
          ap (λ k. store_all t.storage (held k ++ t.writer.queue)) e ∙ ap (store_all t.storage) v.1)

  -- The rounds that a stopped worker still needs.
  rounds_of : Worker → List LogRequest → ℕ
  rounds_of waits q = 1 + 2 * length q
  rounds_of (holds r) q = 2 + 2 * length q
  rounds_of ended q = 0

  abbrev rounds : System S → ℕ
  rounds s = rounds_of s.worker s.writer.queue

  work-rounds :
      (s : System S)
      → s.writer.stopping ≡ true
      → ((work store s).writer.stopping ≡ true)
        × ((s.worker ≡ ended) ⊎ (suc (rounds (work store s)) ≤ rounds s))
  unfolding work wait rounds_of
  work-rounds s stopping = by_worker s.worker s.writer.queue
    where
      by_worker :
          (k : Worker) (q : List LogRequest)
          → let s' : System S = record s {
            worker = k;
            writer = record { queue = q; stopping = s.writer.stopping };
          } in
            ((work_on store s' k).writer.stopping ≡ true)
            × ((k ≡ ended) ⊎ (suc (rounds (work_on store s' k)) ≤ rounds_of k q))
      by_worker waits [] =
          subst
            (λ b.
              let s' : System S = record s {
                worker = waits;
                writer = record { queue = []; stopping = s.writer.stopping };
              } in
              ((waited s' (if b then finished else blocked)).writer.stopping ≡ true)
              × ((waits ≡ ended)
                  ⊎ (suc (rounds (waited s' (if b then finished else blocked))) ≤ 1 + 2 * 0)))
            (sym stopping) (stopping, inr (omega arith))
      by_worker waits (r ∷ q) = (stopping, inr (omega arith))
      by_worker (holds r) q = (stopping, inr (omega arith))
      by_worker ended q = (stopping, inl refl)

  work-ended : (s : System S) → s.worker ≡ ended → work store s ≡ s
  unfolding work
  work-ended s e = ap (work_on store s) e

  work_for-ended : (n : ℕ) (s : System S) → s.worker ≡ ended → work_for store n s ≡ s
  unfolding work_for
  work_for-ended zero s e = refl
  work_for-ended (suc n) s e = ap (work_for store n) (work-ended s e) ∙ work_for-ended n s e

  drains_within :
      (n : ℕ) (s : System S)
      → s.writer.stopping ≡ true
      → rounds s < n
      → (work_for store n s).worker ≡ ended
  unfolding work_for
  drains_within zero s stopping h = absurd (omega arith)
  drains_within (suc n) s stopping h =
      by_round (work-rounds s stopping) (drains_within n (work store s))
    where
      by_round :
          ((work store s).writer.stopping ≡ true)
            × ((s.worker ≡ ended) ⊎ (suc (rounds (work store s)) ≤ rounds s))
          → ((work store s).writer.stopping ≡ true
              → rounds (work store s) < n
              → (work_for store n (work store s)).worker ≡ ended)
          → (work_for store n (work store s)).worker ≡ ended
      by_round (t, inl e) ih =
          ap (λ (x : System S). (work_for store n x).worker) (work-ended s e)
          ∙ ap (λ (x : System S). x.worker) (work_for-ended n s e)
          ∙ e
      by_round (t, inr less) ih = ih t (omega arith)

  rounds-le : (s : System S) → rounds s ≤ 2 + 2 * length s.writer.queue
  unfolding rounds_of
  rounds-le s = by_worker s.worker
    where
      by_worker : (k : Worker) → rounds_of k s.writer.queue ≤ 2 + 2 * length s.writer.queue
      by_worker waits = omega arith
      by_worker (holds r) = omega arith
      by_worker ended = omega arith

  -- Once the writer is stopping, more than `2 + 2 * n` rounds of the worker, `n` being the length
  -- of the queue, end its loop.
  pub work_for-drains :
      (n : ℕ) (s : System S)
      → s.writer.stopping ≡ true
      → 2 + 2 * length s.writer.queue < n
      → (work_for store n s).worker ≡ ended
  work_for-drains n s stopping h = drains_within n s stopping (omega (arith, rounds-le s))
