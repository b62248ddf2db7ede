-- ===== src/TestClient/Cache/Channel.antt =====
-- One thread that calls `write` of a `CacheData` of python_plugins/tests/lib/test_client.py and one that
-- calls `read`, interleaved in any order, access by access.
use sonic_device_health_prtm.Prelude.{◌≡◌, ◌+◌, List, ◌≤◌, ◌<◌, ◌++◌, ◌∷◌, [], some, none}
use sonic_device_health_prtm.TestClient.Cache.{CacheData, put, bump, drain_signal, raise_signal}

-- The next statement of `write`, and the message that it was called with. The index is the writer's
-- own, so `+= 1` and the reset are one step.
pub data Writer (D : Type 0) : Type 0 where
  w_idle : Writer D  -- between two calls: the next tests the counts
  w_storing : D → Writer D  -- `self.data[self.wr_index] = data`
  w_moving : D → Writer D  -- `self.wr_index += 1`
  w_counting : D → Writer D  -- `self.wr_cnt += 1`
  w_signalling : Writer D  -- `self._raise_signal()`

-- The next statement of `read`, past its wait, which writes nothing.
pub data Reader (D : Type 0) : Type 0 where
  r_idle : Reader D  -- between two calls, or in the wait: the next is `self._drain_signal()`
  r_testing : Reader D  -- `if self.rd_cnt < self.wr_cnt`
  r_copying : Reader D  -- the copy of `self.data[self.rd_index]`
  r_moving : D → Reader D  -- `self.rd_index += 1`
  r_counting : D → Reader D  -- `self.rd_cnt += 1`
  r_failed : Reader D  -- the key is missing

-- `written` are the messages that `write` has counted, and `taken` those that `read` has, the latest
-- last.
pub record Channel (D : Type 0) : Type 0 where
  pub cache : CacheData D
  pub writer : Writer D
  pub reader : Reader D
  pub written : List D
  pub taken : List D

module _ {D : Type 0} where
  pub data Access (s : Channel D) : Channel D → Type 0 where
    -- `write`
    refuse : s.writer ≡ w_idle → s.cache.rd_cnt + s.cache.limit ≤ s.cache.wr_cnt → Access s s
    admit :
        (d : D)
        → s.writer ≡ w_idle
        → s.cache.wr_cnt < s.cache.rd_cnt + s.cache.limit
        → Access s (record s { writer = w_storing d })
    store :
        (d : D)
        → s.writer ≡ w_storing d
        → Access s (record s {
          cache = record (s.cache) { cells = put s.cache.cells s.cache.wr_index d };
          writer = w_moving d;
        })
    move_write :
        (d : D)
        → s.writer ≡ w_moving d
        → Access s (record s {
          cache = record (s.cache) { wr_index = bump s.cache.limit s.cache.wr_index };
          writer = w_counting d;
        })
    count_write :
        (d : D)
        → s.writer ≡ w_counting d
        → Access s (record s {
          cache = record (s.cache) { wr_cnt = s.cache.wr_cnt + 1 };
          writer = w_signalling;
          written = s.written ++ (d ∷ []);
        })
    signal :
        s.writer ≡ w_signalling
        → Access s (record s { cache = raise_signal (s.cache); writer = w_idle })
    -- `read`
    drain :
        s.reader ≡ r_idle
        → Access s (record s { cache = drain_signal (s.cache); reader = r_testing })
    find_none :
        s.reader ≡ r_testing
        → s.cache.wr_cnt ≤ s.cache.rd_cnt
        → Access s (record s { reader = r_idle })
    find_some :
        s.reader ≡ r_testing
        → s.cache.rd_cnt < s.cache.wr_cnt
        → Access s (record s { reader = r_copying })
    copy_out :
        (d : D)
        → s.reader ≡ r_copying
        → s.cache.cells s.cache.rd_index ≡ some d
        → Access s (record s { reader = r_moving d })
    miss :
        s.reader ≡ r_copying
        → s.cache.cells s.cache.rd_index ≡ none
        → Access s (record s { reader = r_failed })
    move_read :
        (d : D)
        → s.reader ≡ r_moving d
        → Access s (record s {
          cache = record (s.cache) { rd_index = bump s.cache.limit s.cache.rd_index };
          reader = r_counting d;
        })
    count_read :
        (d : D)
        → s.reader ≡ r_counting d
        → Access s (record s {
          cache = record (s.cache) { rd_cnt = s.cache.rd_cnt + 1 };
          reader = r_idle;
          taken = s.taken ++ (d ∷ []);
        })

  pub data Accesses (s : Channel D) : Channel D → Type 0 where
    here : Accesses s s
    next : {t u : Channel D} → Accesses s t → Access t u → Accesses s u

  -- Both threads between two calls.
  abbrev pub at_rest : CacheData D → List D → List D → Channel D
  at_rest c written taken = record {
    cache = c;
    writer = w_idle;
    reader = r_idle;
    written = written;
    taken = taken;
  }
