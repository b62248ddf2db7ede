-- ===== src/TestClient/Cache/Order.antt =====
-- The order of the messages in a `CacheData` of python_plugins/tests/lib/test_client.py between a thread
-- that writes and one that reads.
use sonic_device_health_prtm.Prelude.{
  ◌<◌, [], ◌≡◌, arith, List, refl, ◌++◌, length, ◌∷◌, ◌≤◌, ◌+◌, ◌≢◌, ◌-◌, subst, ◌∙◌, ap, sym,
}
use sonic_device_health_prtm.TestClient.Cache.Channel.{
  Access, Accesses, here, next, refuse, admit, store, move_write, count_write, signal, drain,
  find_none, find_some, copy_out, miss, move_read, count_read, at_rest, Channel, r_failed, r_idle,
  r_testing, r_copying, r_moving, r_counting,
}
use sonic_device_health_prtm.TestClient.Cache.Invariant.{IsOrdered, find_first, rest}
use sonic_device_health_prtm.TestClient.Cache.{CacheData, bump}
use sonic_device_health_prtm.TestClient.Cache.Moves.{
  Read, admit-Ordered, store-Ordered, move_write-Ordered, count_write-Ordered, signal-Ordered,
  read-Ordered, copy_out-Read, count_read-Ordered,
}

module _ {D : Type 0} where
  pub Access-IsOrdered : {s t : Channel D} → Access s t → IsOrdered s → IsOrdered t
  Access-IsOrdered (refuse w f) o = o
  Access-IsOrdered {s} (admit d w f) (h, q, o) = (h, q, admit-Ordered s h q d w f o)
  Access-IsOrdered {s} (store d w) (h, q, o) = (h, q, store-Ordered s h q d w o)
  Access-IsOrdered {s} (move_write d w) (h, q, o) = (h, q, move_write-Ordered s h q d w o)
  Access-IsOrdered {s} (count_write d w) (h, q, o) =
      (h, q ++ (d ∷ []), count_write-Ordered s h q d w o)
  Access-IsOrdered {s} (signal w) (h, q, o) = (h, q, signal-Ordered s h q w o)
  Access-IsOrdered {s} (drain r) (h, q, o) = (
    h,
    q,
    read-Ordered s h q s.cache.rd_index (s.cache.pipe - 4) r_testing o
        (subst (Read s h q) r o.reads),
  )
  Access-IsOrdered {s} (find_none r e) (h, q, o) = (
    h,
    q,
    read-Ordered s h q s.cache.rd_index s.cache.pipe r_idle o (subst (Read s h q) r o.reads),
  )
  Access-IsOrdered {s} (find_some r p) (h, q, o) = (
    h,
    q,
    read-Ordered s h q s.cache.rd_index s.cache.pipe r_copying o
        (subst (Read s h q) r o.reads, omega (arith, o.counts)),
  )
  Access-IsOrdered {s} (copy_out d r e) (h, q, o) = (
    h,
    q,
    read-Ordered s h q s.cache.rd_index s.cache.pipe (r_moving d) o (copy_out-Read s h q d r e o),
  )
  Access-IsOrdered {s} (miss r e) (h, q, o) =
      let at = subst (Read s h q) r o.reads in
      let found =
        find_first s.cache.limit s.cache.cells h q at.1 o.holds
        ∙ ap (s.cache.cells) (sym at.0)
        ∙ e in
      absurd (ground (arith, found, at.1))
  Access-IsOrdered {s} (move_read d r) (h, q, o) =
      let at = subst (Read s h q) r o.reads in
      (
        h,
        q,
        read-Ordered s h q (bump s.cache.limit s.cache.rd_index) s.cache.pipe (r_counting d) o
            (ap (bump s.cache.limit) at.0, at.1),
      )
  Access-IsOrdered {s} (count_read d r) (h, q, o) =
      (bump s.cache.limit h, rest q, count_read-Ordered s h q d r o)

  -- A cache as `__init__` leaves it.
  abbrev pub IsEmpty : CacheData D → Type 0
  IsEmpty c =
      (0 < c.limit)
      × (c.rd_index ≡ 0)
      × (c.wr_index ≡ 0)
      × (c.rd_cnt ≡ 0)
      × (c.wr_cnt ≡ 0)
      × (c.pipe ≡ 0)

  pub initial-IsOrdered : (c : CacheData D) → IsEmpty c → IsOrdered (at_rest c [] [])
  initial-IsOrdered c (p, i, j, m, n, e) = (
    0,
    [],
    record {
      start = p;
      fits = omega arith;
      counts = omega arith;
      holds = tt;
      order = refl;
      writes = ground arith;
      reads = i;
    },
  )

  pub Accesses-IsOrdered : {s t : Channel D} → Accesses s t → IsOrdered s → IsOrdered t
  Accesses-IsOrdered here o = o
  Accesses-IsOrdered (next r st) o = Access-IsOrdered st (Accesses-IsOrdered r o)

  -- From a new cache, through any interleaving of the accesses of one thread that writes and one that
  -- reads: the messages read are the first of those written, in their order; those between are at most
  -- `limit` and as many as the counts differ; and the reader never misses a key.
  pub nothing_lost :
      (c : CacheData D) {s : Channel D}
      → IsEmpty c
      → Accesses (at_rest c [] []) s
      → (q : List D) × (s.written ≡ s.taken ++ q)
        × (length q ≤ s.cache.limit)
        × (s.cache.wr_cnt ≡ s.cache.rd_cnt + length q)
        × (s.reader ≢ r_failed)
  nothing_lost c {s} e run =
      let (h, q, o) = Accesses-IsOrdered run (initial-IsOrdered c e) in
      (q, o.order, o.fits, o.counts, λ f. absurd (subst (Read s h q) f o.reads))
