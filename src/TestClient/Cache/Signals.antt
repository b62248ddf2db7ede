-- ===== src/TestClient/Cache/Signals.antt =====
-- The signals of a `CacheData` of python_plugins/tests/lib/test_client.py, between a thread
-- that writes and one that reads.
use sonic_device_health_prtm.Prelude.{arith, ℕ, ◌+◌, ◌≡◌, ◌-◌, ◌*◌, ◌≤◌, ◌≢◌, ◌<◌, []}
use sonic_device_health_prtm.TestClient.Cache.Channel.{
  Access, refuse, admit, store, move_write, count_write, signal, drain, find_none, find_some,
  copy_out, miss, move_read, count_read, Channel, r_idle, r_testing, w_signalling, Writer, Reader,
  Accesses, here, next, at_rest, w_idle,
}
use sonic_device_health_prtm.TestClient.Cache.Order.{initial-IsOrdered, Accesses-IsOrdered, IsEmpty}
use sonic_device_health_prtm.TestClient.Cache.{CacheData}

-- `write` has counted its message and not signalled it.
abbrev pub unsignalled : {D : Type 0} → Writer D → ℕ
unsignalled w_signalling = 1
unsignalled _ = 0

-- `read` has drained a signal and not counted a message.
abbrev pub drained : {D : Type 0} → Reader D → ℕ
drained r_idle = 0
drained _ = 1

module _ {D : Type 0} where
  -- `signals` are in the pipe: up to the two threads, one for each message, and two more at most.
  pub record Signalled (s : Channel D) (signals : ℕ) : Type 0 where
    pub bytes : s.cache.pipe ≡ 4 * signals
    pub behind : s.cache.rd_cnt ≤ s.cache.wr_cnt
    pub enough : s.cache.wr_cnt ≤ s.cache.rd_cnt + signals + unsignalled s.writer + drained s.reader
    pub few :
        signals + unsignalled s.writer + drained s.reader + s.cache.rd_cnt ≤ s.cache.wr_cnt + 2
    pub copying : drained s.reader ≡ 1 → s.reader ≢ r_testing → s.cache.rd_cnt < s.cache.wr_cnt

  abbrev pub IsSignalled : Channel D → Type 0
  IsSignalled s = (signals : ℕ) × Signalled s signals

  pub Access-IsSignalled : {s t : Channel D} → Access s t → IsSignalled s → IsSignalled t
  Access-IsSignalled (refuse w f) o = o
  Access-IsSignalled {s} (admit d w f) (n, o) = (n, ground (arith, o.enough, o.few, w))
  Access-IsSignalled {s} (store d w) (n, o) = (n, ground (arith, o.enough, o.few, w))
  Access-IsSignalled {s} (move_write d w) (n, o) = (n, ground (arith, o.enough, o.few, w))
  Access-IsSignalled {s} (count_write d w) (n, o) = (n, ground (arith, o.enough, o.few, w))
  Access-IsSignalled {s} (signal w) (n, o) = (n + 1, ground (arith, o.enough, o.few, w))
  Access-IsSignalled {s} (drain r) (n, o) = (n - 1, ground (arith, o.enough, o.few, r))
  Access-IsSignalled {s} (find_none r e) (n, o) = (n, ground (arith, o.enough, o.few, r))
  Access-IsSignalled {s} (find_some r p) (n, o) = (n, ground (arith, o.enough, o.few, r))
  Access-IsSignalled {s} (copy_out d r e) (n, o) = (n, ground (arith, o.enough, o.few, r))
  Access-IsSignalled {s} (miss r e) (n, o) = (n, ground (arith, o.enough, o.few, r))
  Access-IsSignalled {s} (move_read d r) (n, o) = (n, ground (arith, o.enough, o.few, r))
  Access-IsSignalled {s} (count_read d r) (n, o) = (n, ground (arith, o.enough, o.few, r))

  Accesses-IsSignalled : {s t : Channel D} → Accesses s t → IsSignalled s → IsSignalled t
  Accesses-IsSignalled here o = o
  Accesses-IsSignalled (next r st) o = Access-IsSignalled st (Accesses-IsSignalled r o)

  initial-IsSignalled : (c : CacheData D) → IsEmpty c → IsSignalled (at_rest c [] [])
  initial-IsSignalled c e = (0, ground (arith, e))

  -- From a new cache, through any interleaving of one writer and one reader: while both are between two
  -- calls and a message waits, the pipe is readable, so that a `select` on it returns.
  pub no_lost_signal :
      (c : CacheData D) {s : Channel D}
      → IsEmpty c
      → Accesses (at_rest c [] []) s
      → s.writer ≡ w_idle
      → s.reader ≡ r_idle
      → s.cache.rd_cnt < s.cache.wr_cnt
      → 0 < s.cache.pipe
  no_lost_signal c {s} e run w r p =
      let (n, o) = Accesses-IsSignalled run (initial-IsSignalled c e) in
      ground (arith, o.bytes, o.enough)

  -- From a new cache, through any interleaving of one writer and one reader: the pipe holds at most the
  -- signals of `limit` messages and two more.
  pub pipe_bounded :
      (c : CacheData D) {s : Channel D}
      → IsEmpty c
      → Accesses (at_rest c [] []) s
      → s.cache.pipe ≤ 4 * (s.cache.limit + 2)
  pipe_bounded c {s} e run =
      let (n, o) = Accesses-IsSignalled run (initial-IsSignalled c e) in
      let (h, q, d) = Accesses-IsOrdered run (initial-IsOrdered c e) in
      omega (arith, o.bytes, o.few, d.counts, d.fits)
