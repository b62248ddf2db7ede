-- ===== src/TestClient/Cache/Moves.antt =====
-- Each step of the writer and the reader of a `CacheData` of python_plugins/tests/lib/test_client.py on the
-- messages between them.
use mathlib.Core.Option.{some-injective}
use mathlib.Core.List.{append_assoc}
use sonic_device_health_prtm.Prelude.{
  List, ℕ, ◌∷◌, [], ◌<◌, ◌≡◌, some, length, ◌+◌, ◌++◌, arith, sym, ◌∙◌, subst, ap,
}
use sonic_device_health_prtm.TestClient.Cache.Channel.{
  Channel, Writer, Reader, r_moving, w_storing, r_counting, w_moving, r_idle, w_counting, w_idle,
  w_signalling, r_copying,
}
use sonic_device_health_prtm.TestClient.Cache.{bump, put, raise_signal}
use sonic_device_health_prtm.TestClient.Cache.Slots.{
  slot, bump_in, bump-slot, Holds-append, put-Holds,
}
use sonic_device_health_prtm.TestClient.Cache.Invariant.{
  WriterAt, ReaderAt, Ordered, rest, snoc_length, find_first, WriterAt-rest, ReaderAt-append,
}

module _ {D : Type 0} where
  module _ (s : Channel D) (h : ℕ) where
    abbrev Written : List D → Writer D → Type 0
    Written q = WriterAt s.cache.limit s.cache.cells s.cache.wr_index h (length q)

    abbrev pub Read : List D → Reader D → Type 0
    Read = ReaderAt s.cache.limit s.cache.rd_index h

    pub admit-Ordered :
        (q : List D) (d : D)
        → s.writer ≡ w_idle
        → s.cache.wr_cnt < s.cache.rd_cnt + s.cache.limit
        → Ordered s h q
        → Ordered (record s { writer = w_storing d }) h q
    admit-Ordered q d w f o = record {
      start = o.start;
      fits = o.fits;
      counts = o.counts;
      holds = o.holds;
      order = o.order;
      writes = (omega (arith, o.counts), subst (Written q) w o.writes);
      reads = o.reads;
    }

    pub store-Ordered :
        (q : List D) (d : D)
        → s.writer ≡ w_storing d
        → Ordered s h q
        → Ordered
            (record s {
              cache = record (s.cache) { cells = put s.cache.cells s.cache.wr_index d };
              writer = w_moving d;
            })
            h
            q
    unfolding put
    store-Ordered q d w o =
        let at = subst (Written q) w o.writes in
        record {
          start = o.start;
          fits = o.fits;
          counts = o.counts;
          holds =
              put-Holds s.cache.limit s.cache.cells d s.cache.wr_index h q o.start at.0 at.1
                o.holds;
          order = o.order;
          writes = (at.0, at.1, ground (arith, at.1));
          reads = o.reads;
        }

    pub move_write-Ordered :
        (q : List D) (d : D)
        → s.writer ≡ w_moving d
        → Ordered s h q
        → Ordered
            (record s {
              cache = record (s.cache) { wr_index = bump s.cache.limit s.cache.wr_index };
              writer = w_counting d;
            })
            h
            q
    move_write-Ordered q d w o =
        let at = subst (Written q) w o.writes in
        record {
          start = o.start;
          fits = o.fits;
          counts = o.counts;
          holds = o.holds;
          order = o.order;
          writes = (
            at.0,
            ap (bump s.cache.limit) at.1 ∙ bump-slot s.cache.limit h (length q) o.start at.0,
            at.2,
          );
          reads = o.reads;
        }

    pub count_write-Ordered :
        (q : List D) (d : D)
        → s.writer ≡ w_counting d
        → Ordered s h q
        → Ordered
            (record s {
              cache = record (s.cache) { wr_cnt = s.cache.wr_cnt + 1 };
              writer = w_signalling;
              written = s.written ++ (d ∷ []);
            })
            h
            (q ++ (d ∷ []))
    count_write-Ordered q d w o =
        let at = subst (Written q) w o.writes in
        record {
          start = o.start;
          fits = omega (arith, at.0, snoc_length q d);
          counts = omega (arith, o.counts, snoc_length q d);
          holds = Holds-append s.cache.limit s.cache.cells d h q o.start at.0 at.2 o.holds;
          order = ap (λ l. l ++ (d ∷ [])) o.order ∙ append_assoc s.taken q (d ∷ []);
          writes =
              subst (λ n. s.cache.wr_index ≡ slot s.cache.limit h n) (sym (snoc_length q d)) at.1;
          reads = ReaderAt-append s.cache.limit s.cache.rd_index h q d s.reader o.reads;
        }

    pub signal-Ordered :
        (q : List D)
        → s.writer ≡ w_signalling
        → Ordered s h q
        → Ordered (record s { cache = raise_signal (s.cache); writer = w_idle }) h q
    signal-Ordered q w o = record {
      start = o.start;
      fits = o.fits;
      counts = o.counts;
      holds = o.holds;
      order = o.order;
      writes = subst (Written q) w o.writes;
      reads = o.reads;
    }

    -- A step of the reader that moves at most its index.
    pub read-Ordered :
        (q : List D) (i p : ℕ) (r : Reader D)
        → Ordered s h q
        → ReaderAt s.cache.limit i h q r
        → Ordered (record s { cache = record (s.cache) { rd_index = i; pipe = p }; reader = r }) h q
    read-Ordered q i p r o reads = record {
      start = o.start;
      fits = o.fits;
      counts = o.counts;
      holds = o.holds;
      order = o.order;
      writes = o.writes;
      reads = reads;
    }

    pub copy_out-Read :
        (q : List D) (d : D)
        → s.reader ≡ r_copying
        → s.cache.cells s.cache.rd_index ≡ some d
        → Ordered s h q
        → Read q (r_moving d)
    copy_out-Read q d r e o =
        let at = subst (Read q) r o.reads in
        (
          at.0,
          find_first s.cache.limit s.cache.cells h q at.1 o.holds
              ∙ ap (s.cache.cells) (sym at.0)
              ∙ e,
        )

    pub count_read-Ordered :
        (q : List D) (d : D)
        → s.reader ≡ r_counting d
        → Ordered s h q
        → Ordered
            (record s {
              cache = record (s.cache) { rd_cnt = s.cache.rd_cnt + 1 };
              reader = r_idle;
              taken = s.taken ++ (d ∷ []);
            })
            (bump s.cache.limit h)
            (rest q)
    count_read-Ordered [] d r o =
        let at = subst (Read []) r o.reads in absurd (ground (arith, at.1))
    count_read-Ordered (x ∷ q) d r o =
        let at = subst (Read (x ∷ q)) r o.reads in
        record {
          start = bump_in s.cache.limit h o.start;
          fits = omega (arith, o.fits);
          counts = omega (arith, o.counts);
          holds = o.holds.1;
          order =
              o.order
              ∙ ap (λ y. s.taken ++ (y ∷ q)) (some-injective x d at.1)
              ∙ sym (append_assoc s.taken (d ∷ []) q);
          writes =
              WriterAt-rest s.cache.limit s.cache.cells s.cache.wr_index h (length q) s.writer
                o.start (omega (arith, o.fits))
                (subst (λ n. WriterAt s.cache.limit s.cache.cells s.cache.wr_index h n s.writer)
                  (omega arith) o.writes);
          reads = at.0;
        }
