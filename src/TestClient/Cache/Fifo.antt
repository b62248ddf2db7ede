-- ===== src/TestClient/Cache/Fifo.antt =====
-- `write` and `read` of a `CacheData` of python_plugins/tests/lib/test_client.py, called one after the
-- other, and a bounded queue.
use sonic_device_health_prtm.Prelude.{
  ℕ, List, Bool, ok, Result, if◌then◌else◌, Option, ltb, [], ◌++◌, none, length, ◌∷◌, true, some,
  false, Bool-cases, leb, ◌≡◌, ◌+◌, inl, inr, arith, refl, ◌<◌, err, ◌≤◌, Option-cases, ◌-◌,
  length-append, ◌∙◌, sym, ap,
}
use sonic_device_health_prtm.TestClient.Cache.Channel.{
  Accesses, at_rest, store, admit, move_write, count_write, signal, next, here, refuse, drain,
  find_none, find_some, copy_out, move_read, count_read,
}
use sonic_device_health_prtm.TestClient.Cache.{write, read_now, CacheData, take, bump, put}
use sonic_device_health_prtm.TestClient.Cache.Slots.{
  Holds, slot, bump_in, Holds-append, put-Holds, slot-bump, bump-slot,
}

-- A call of the server or the process on one cache, and what it returns.
pub data Op (D : Type 0) : Type 0 where
  do_write : D → Op D
  do_read : Op D

pub data Reply (D : Type 0) : Type 0 where
  wrote : Bool → Reply D
  received : Result (Option D) → Reply D

module _ {D : Type 0} where
  unfoldable pub run : List (Op D) → CacheData D → List (Reply D)
  run [] c = []
  run (do_write d ∷ ops) c = let (b, c') = write d c in wrote b ∷ run ops c'
  run (do_read ∷ ops) c = let (r, c') = read_now c in received r ∷ run ops c'

  -- A queue of at most `limit` messages, the oldest first.
  unfoldable pub push : ℕ → D → List D → Bool × List D
  push limit d q = if ltb (length q) limit then (true, q ++ (d ∷ [])) else (false, q)

  unfoldable pub pop : List D → Option D × List D
  pop [] = (none, [])
  pop (d ∷ q) = (some d, q)

  unfoldable pub run_queue : ℕ → List (Op D) → List D → List (Reply D)
  unfolding push pop
  run_queue limit [] q = []
  run_queue limit (do_write d ∷ ops) q =
      let (b, q') = push limit d q in wrote b ∷ run_queue limit ops q'
  run_queue limit (do_read ∷ ops) q =
      let (r, q') = pop q in received (ok r) ∷ run_queue limit ops q'

  -- `write` is a run of the accesses of the writer.
  pub write_runs :
      (d : D) (c : CacheData D) (ws ts : List D)
      → let (b, c') = write d c in
        Accesses (at_rest c ws ts) (at_rest c' (if b then ws ++ (d ∷ []) else ws) ts)
  unfolding write
  write_runs d c ws ts = elim (Bool-cases (leb (c.rd_cnt + c.limit) c.wr_cnt)) [
    | inl full ↦ rw full (next here (refuse refl (ground (arith, full))))
    | inr room ↦ rw room (
        next
          (next
            (next (next (next here (admit d refl (ground (arith, room)))) (store d refl))
              (move_write d refl))
            (count_write d refl))
          (signal refl))
  ]

  take-Accesses :
      (c : CacheData D) (ws ts : List D) (d : D)
      → c.rd_cnt < c.wr_cnt
      → c.cells c.rd_index ≡ some d
      → Accesses (at_rest c ws ts) (
          at_rest
            (record c {
              rd_index = bump c.limit c.rd_index;
              rd_cnt = c.rd_cnt + 1;
              pipe = c.pipe - 4;
            })
            ws
            (ts ++ (d ∷ [])))
  take-Accesses c ws ts d p e =
      next
        (next (next (next (next here (drain refl)) (find_some refl p)) (copy_out d refl e))
          (move_read d refl))
        (count_read d refl)

  -- From `c` there are accesses to what a call of `read(0)` leaves, where it does not raise.
  abbrev pub ReadRuns : CacheData D → List D → List D → Result (Option D) × CacheData D → Type 0
  ReadRuns c ws ts (ok none, c') = Accesses (at_rest c ws ts) (at_rest c' ws ts)
  ReadRuns c ws ts (ok (some d), c') = Accesses (at_rest c ws ts) (at_rest c' ws (ts ++ (d ∷ [])))
  ReadRuns c ws ts (err _, c') = Unit

  pub read_now_runs : (c : CacheData D) (ws ts : List D) → ReadRuns c ws ts (read_now c)
  unfolding read_now take
  read_now_runs c ws ts = elim (Bool-cases (ltb c.rd_cnt c.wr_cnt)) [
    | inl waits ↦ elim (Option-cases (c.cells c.rd_index)) [
      | inl missing ↦ rw (waits, missing) tt
      | inr (d, e) ↦ rw (waits, e) (take-Accesses c ws ts d (ground (arith, waits)) e)
    ]
    | inr empty ↦ rw empty (next (next here (drain refl)) (find_none refl (ground (arith, empty))))
  ]

  -- The messages that a cache at rest holds.
  pub record Contains (c : CacheData D) (q : List D) : Type 0 where
    pub start : c.rd_index < c.limit
    pub fits : length q ≤ c.limit
    pub counts : c.wr_cnt ≡ c.rd_cnt + length q
    pub holds : Holds c.limit c.cells c.rd_index q
    pub tail : c.wr_index ≡ slot c.limit c.rd_index (length q)

  pub write-full :
      (d : D) (c : CacheData D) (q : List D)
      → Contains c q
      → c.limit ≤ length q
      → write d c ≡ (false, c)
  unfolding write
  write-full d c q v p = ground (arith, v.counts)

  pub write-Contains :
      (d : D) (c : CacheData D) (q : List D)
      → Contains c q
      → length q < c.limit
      → ((write d c).0 ≡ true)
        × Contains (write d c).1 (q ++ (d ∷ []))
        × ((write d c).1.limit ≡ c.limit)
  unfolding write put
  write-Contains d c q v p = rw room (
    refl,
    record {
      start = v.start;
      fits = omega (arith, length-append q (d ∷ []));
      counts = omega (arith, v.counts, length-append q (d ∷ []));
      holds =
          Holds-append c.limit (put c.cells c.wr_index d) d c.rd_index q v.start p stored
            (put-Holds c.limit c.cells d c.wr_index c.rd_index q v.start p v.tail v.holds);
      tail =
          ap (bump c.limit) v.tail
          ∙ bump-slot c.limit c.rd_index (length q) v.start p
          ∙ ap (slot c.limit c.rd_index) (sym (length-append q (d ∷ [])));
    },
    refl,
  )
    where
      room : leb (c.rd_cnt + c.limit) c.wr_cnt ≡ false
      room = ground (arith, v.counts)

      stored : put c.cells c.wr_index d (slot c.limit c.rd_index (length q)) ≡ some d
      stored = ground (arith, v.tail)

  pub read-empty :
      (c : CacheData D)
      → Contains c []
      → ((read_now c).0 ≡ ok none) × Contains (read_now c).1 [] × ((read_now c).1.limit ≡ c.limit)
  unfolding read_now take
  read-empty c v = rw nothing (
    refl,
    record { start = v.start; fits = v.fits; counts = v.counts; holds = v.holds; tail = v.tail },
    refl,
  )
    where
      nothing : ltb c.rd_cnt c.wr_cnt ≡ false
      nothing = ground (arith, v.counts)

  pub read-Contains :
      (d : D) (c : CacheData D) (q : List D)
      → Contains c (d ∷ q)
      → ((read_now c).0 ≡ ok (some d))
        × Contains (read_now c).1 q
        × ((read_now c).1.limit ≡ c.limit)
  unfolding read_now take
  read-Contains d c q v =
      rw (waits, v.holds.0)
        (
          refl,
          record {
            start = bump_in c.limit c.rd_index v.start;
            fits = omega (arith, v.fits);
            counts = omega (arith, v.counts);
            holds = v.holds.1;
            tail =
                v.tail
                ∙ sym (
                    slot-bump c.limit c.rd_index (length q) v.start (omega (arith, v.fits))
                    ∙ ap (slot c.limit c.rd_index) (omega arith));
          },
          refl,
        )
    where
      waits : ltb c.rd_cnt c.wr_cnt ≡ true
      waits = ground (arith, v.counts)

  -- Calls of `write` and `read(0)` on a cache, one after the other, return what a queue returns that
  -- holds the cache's messages and at most `limit`: a write on a full queue is refused and changes
  -- nothing, a read gives the oldest message or none, and no call raises.
  pub run_refines :
      (ops : List (Op D)) (c : CacheData D) (q : List D)
      → Contains c q
      → run ops c ≡ run_queue c.limit ops q
  unfolding run run_queue push pop
  run_refines [] c q v = refl
  run_refines (do_write d ∷ ops) c q v = elim (Bool-cases (ltb (length q) c.limit)) [
    | inl room ↦
        let (b, v', l) = write-Contains d c q v (ground (arith, room)) in
        rw (room, run_refines ops (write d c).1 (q ++ (d ∷ [])) v', b, l)
    | inr full ↦ rw (full, write-full d c q v (ground (arith, full)), run_refines ops c q v)
  ]
  run_refines (do_read ∷ ops) c [] v =
      let (b, v', l) = read-empty c v in rw (run_refines ops (read_now c).1 [] v', b, l)
  run_refines (do_read ∷ ops) c (d ∷ q) v =
      let (b, v', l) = read-Contains d c q v in rw (run_refines ops (read_now c).1 q v', b, l)
