-- ===== src/TestClient/Cache.antt =====
-- `CacheData` of python_plugins/tests/lib/test_client.py: a ring of messages with a pipe that signals
-- them. A message is a dictionary; it is only copied.
use sonic_device_health_prtm.Prelude.{
  ◌-◌, Bool, ℕ, ◌+◌, Option, if◌then◌else◌, none, ltb, ◌==◌, leb, some, err, false, PyError, true,
  ok,
}
use sonic_device_health_prtm.Prelude.Action.{Action}
pub mod Slots
pub mod Channel
pub mod Invariant
pub mod Moves
pub mod Order
pub mod Signals
pub mod Fifo

-- `signal_rd` and `signal_wr` are the ends of the pipe, and `pipe` the bytes in it. `cells` is `data`, none
-- where the dictionary has no such key.
pub record CacheData (D : Type 0) : Type 0 where
  pub limit : ℕ
  pub rd_index : ℕ
  pub wr_index : ℕ
  pub rd_cnt : ℕ
  pub wr_cnt : ℕ
  pub cells : ℕ → Option D
  pub c2s : Bool
  pub signal_rd : ℕ
  pub signal_wr : ℕ
  pub pipe : ℕ

-- `CacheData.__init__`, where `os.pipe` returns `fds`.
abbrev pub new_cache : {D : Type 0} → ℕ → Bool → ℕ × ℕ → CacheData D
new_cache limit c2s fds = record {
  limit = limit;
  rd_index = 0;
  wr_index = 0;
  rd_cnt = 0;
  wr_cnt = 0;
  cells = λ _. none;
  c2s = c2s;
  signal_rd = fds.0;
  signal_wr = fds.1;
  pipe = 0;
}

-- `i += 1`, and the reset at `limit`.
unfoldable pub bump : ℕ → ℕ → ℕ
bump limit i = if leb limit (i + 1) then 0 else i + 1

-- `self.data[i] = d`
unfoldable pub put : {D : Type 0} → (ℕ → Option D) → ℕ → D → ℕ → Option D
put cells i d j = if j == i then some d else cells j

module _ {D : Type 0} where
  -- A signal is the four bytes of `SIGNAL_MSG`; a read takes at most that many, from a readable pipe.
  abbrev pub drain_signal : CacheData D → CacheData D
  drain_signal c = record c { pipe = c.pipe - 4 }

  abbrev pub raise_signal : CacheData D → CacheData D
  raise_signal c = record c { pipe = c.pipe + 4 }

  unfoldable pub write : D → CacheData D → Bool × CacheData D
  unfolding bump put
  write d c = if leb (c.rd_cnt + c.limit) c.wr_cnt then (false, c) else (
    true,
    raise_signal (record c {
      cells = put c.cells c.wr_index d;
      wr_index = bump c.limit c.wr_index;
      wr_cnt = c.wr_cnt + 1;
    }),
  )

  -- What `read` does after its wait: `none` is `(False, {})`. A key that is missing raises.
  unfoldable pub take : Action (CacheData D) (Option D)
  unfolding bump
  take c =
      if ltb c.rd_cnt c.wr_cnt
      then elim (c.cells c.rd_index) [
        | none ↦ (err (PyError.key_error "rd_index"), c)
        | some d ↦
            (ok (some d), record c { rd_index = bump c.limit c.rd_index; rd_cnt = c.rd_cnt + 1 })
      ]
      else (ok none, c)

  -- `read(0)`
  unfoldable pub read_now : Action (CacheData D) (Option D)
  unfolding take
  read_now c = take (drain_signal c)
