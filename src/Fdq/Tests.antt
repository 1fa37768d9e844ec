-- ===== src/Fdq/Tests.antt =====
-- The theorems on the queue at two workers.
use socle.Prelude.{ℕ, suc, ◌≡◌, refl, true, false, some, List, [], ◌∷◌, ◌++◌, arith, ltb}
use socle.Fdq.{WorkerPipe, FdQueue, insert_candidate, insert_all, notify, push_all}
use socle.Fdq.Order.{
  QueueCall, pushes, pops, pops_if, updates, oldest_first, pushed, serve_all, serve_all_ordered,
}

abbrev worker : ℕ → ℕ → WorkerPipe
worker a load = record {
  pipe_to_scheduler = some a;
  pipe_to_worker = some (suc a);
  seen_worker_load = load;
}

abbrev two_workers : FdQueue
two_workers = record {
  sq_ = 9 ∷ 8 ∷ [];
  hint_pairs_ = (1, worker 10 5) ∷ (2, worker 20 3) ∷ [];
  feedback_queue_empty = false;
}

abbrev calls : List QueueCall
calls = pushes 7 ∷ pops 1 ∷ updates 1 0 ∷ pops_if (λ s. ltb s 9) ∷ pops 2 ∷ []

serve_all_ordered_example :
    let (ss, f') = serve_all (λ o. true) two_workers calls in
    ss ++ oldest_first f'.sq_ ≡ oldest_first two_workers.sq_ ++ pushed calls
serve_all_ordered_example =
    serve_all_ordered (λ o. true) two_workers calls (omega arith, (omega arith, tt))
      (omega arith, (tt, (tt, (tt, (tt, tt)))))

wakes_second : (push_all (λ o. true) two_workers 7).1 ≡ worker 20 3 ∷ []
unfolding push_all notify insert_all insert_candidate
wakes_second = refl
