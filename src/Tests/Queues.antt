-- ===== src/Tests/Queues.antt =====
-- The queue of python_plugins/tests/lib/test_client.py on small runs.
use sonic_device_health_prtm.Prelude.{
  ◌<◌, ◌≡◌, [], ℕ, List, true, ◌++◌, ◌∷◌, arith, none, false, refl, length, ◌≤◌, ok, some, ◌+◌, ◌≢◌,
}
use sonic_device_health_prtm.TestClient.Cache.Channel.{
  Channel, Accesses, here, next, admit, store, move_write, count_write, signal, drain, find_some,
  copy_out, move_read, count_read, at_rest, r_failed, r_idle, w_idle,
}
use sonic_device_health_prtm.TestClient.Cache.{
  CacheData, new_cache, write, put, bump, read_now, take,
}
use sonic_device_health_prtm.TestClient.Cache.Fifo.{
  run, run_queue, Contains, write_runs, run_refines, Op, do_write, do_read, wrote, received,
}
use sonic_device_health_prtm.TestClient.Cache.Order.{IsEmpty, nothing_lost}
use sonic_device_health_prtm.TestClient.Cache.Signals.{no_lost_signal}

abbrev small : CacheData ℕ
small = new_cache 2 true (3, 4)

small-IsEmpty : IsEmpty small
small-IsEmpty = (omega arith, refl, refl, refl, refl, refl)

small-Contains : Contains small []
small-Contains = record {
  start = omega arith;
  fits = omega arith;
  counts = refl;
  holds = tt;
  tail = refl;
}

-- The reader comes between the count of a message and its signal.
abbrev overtaken : Channel ℕ
overtaken = record {
  cache = record small {
    cells = put (λ _. none) 0 7;
    wr_index = bump 2 0;
    wr_cnt = 1;
    rd_index = bump 2 0;
    rd_cnt = 1;
    pipe = 4;
  };
  writer = w_idle;
  reader = r_idle;
  written = 7 ∷ [];
  taken = 7 ∷ [];
}

overtaking : Accesses (at_rest small [] []) overtaken
unfolding put
overtaking =
    next
      (next
        (next
          (next
            (next
              (next
                (next
                  (next (next (next here (admit 7 refl (omega arith))) (store 7 refl))
                    (move_write 7 refl))
                  (count_write 7 refl))
                (drain refl))
              (find_some refl (omega arith)))
            (copy_out 7 refl refl))
          (move_read 7 refl))
        (signal refl))
      (count_read 7 refl)

nothing_lost_example :
    (q : List ℕ) × (overtaken.written ≡ overtaken.taken ++ q)
    × (length q ≤ 2)
    × (1 ≡ 1 + length q)
    × (overtaken.reader ≢ r_failed)
nothing_lost_example = nothing_lost small small-IsEmpty overtaking

no_lost_signal_example : 0 < (write 7 small).1.pipe
unfolding write
no_lost_signal_example =
    no_lost_signal small small-IsEmpty (write_runs 7 small [] []) refl refl (omega arith)

-- Three messages for a queue of two, and one too many reads.
abbrev calls : List (Op ℕ)
calls =
    do_write 1 ∷ do_write 2 ∷ do_write 3 ∷ do_read ∷ do_write 4 ∷ do_read ∷ do_read ∷ do_read ∷ []

calls_run :
    run calls small
    ≡ wrote true
      ∷ wrote true
      ∷ wrote false
      ∷ received (ok (some 1))
      ∷ wrote true
      ∷ received (ok (some 2))
      ∷ received (ok (some 4))
      ∷ received (ok none)
      ∷ []
unfolding run write read_now take put bump
calls_run = refl

run_refines_example : run calls small ≡ run_queue 2 calls []
run_refines_example = run_refines calls small [] small-Contains
